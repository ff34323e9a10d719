-- ===== src/Stack.antt =====
-- src/stack/stack.c: the stack `seqc_stack_t` on top of `vec_t`.
--
-- A handle `seqc_stack_t *` is an `Option (Stack A)`; the field `vec` is a `vec_t *` in turn.
pub mod Refine
pub mod Iter
mod Tests
use seqc.Prelude.{
  ℕ, ◌+◌, ◌-◌, ◌==◌, Bool, true, Option, none, some, if◌then◌else◌, Status, invalid, Allocator,
  Uninit, copy_out,
}
use seqc.Vec as Array
use seqc.Vec.{Vec, len as vec_len}

pub record Stack {ℓ} (A : Type ℓ) : Type ℓ where
  pub vec : Option (Vec A)

-- `sizeof(seqc_stack_t)`, with an `allocator_t` of `handle` bytes.
abbrev pub sizeof_stack : ℕ → ℕ
sizeof_stack handle = 8 + handle

module _ {ℓ} {A : Type ℓ} where
  pub is_empty : Option (Stack A) → Bool
  is_empty none = true
  is_empty (some s) = vec_len s.vec == 0

  pub len : Option (Stack A) → ℕ
  len none = 0
  len (some s) = vec_len s.vec

  pub clear : Option (Stack A) → Option (Stack A)
  clear none = none
  clear (some s) = some (record { vec = Array.clear s.vec })

module _ {ℓ} {A : Type ℓ} ⦃u : Uninit A⦄ where
  pub pop : Option (Stack A) → Status × Option A × Option (Stack A)
  pop none = (invalid, none, none)
  pop (some s) = let (st, out, v) = Array.pop s.vec in (st, out, some (record { vec = v }))

  pub peek_ptr : Option (Stack A) → Option A
  peek_ptr none = none
  peek_ptr (some s) = if vec_len s.vec == 0 then none else Array.get_ptr s.vec (vec_len s.vec - 1)

  pub peek : Option (Stack A) → Status × Option A
  peek none = (invalid, none)
  peek (some s) = copy_out (peek_ptr (some s))

module _ {ℓ κ} {A : Type ℓ} {H : Type κ} ⦃u : Uninit A⦄ ⦃al : Allocator H⦄ where
  pub create : ℕ → Bool → H → Option (Stack A) × H
  create size has_vtable h = elim (al.alloc (sizeof_stack al.handle_size) h) [
    | none ↦ (none, h)
    | some h₁ ↦
        let (v, h₂) = Array.create size has_vtable h₁ in
        elim v [
          | none ↦ (none, al.free (sizeof_stack al.handle_size) h₂)
          | some w ↦ (some (record { vec = some w }), h₂)
        ]
  ]

  pub push : Option (Stack A) → Option A → H → Status × Option (Stack A) × H
  push none x h = (invalid, none, h)
  push (some s) x h = let (st, v, h') = Array.push s.vec x h in (st, some (record { vec = v }), h')

  pub destroy : Option (Stack A) → H → H
  destroy none h = h
  destroy (some s) h = al.free (sizeof_stack al.handle_size) (Array.destroy s.vec h)
