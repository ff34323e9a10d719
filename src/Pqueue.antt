-- ===== src/Pqueue.antt =====
-- src/pqueue/pqueue.c: the binary min-heap `pqueue_t` on top of `vec_t`.
--
-- A handle `pqueue_t *` is an `Option (Pqueue A)`; the field `data`, here `vec`, is a `vec_t *` in
-- turn, which pqueue_create does not test. The field `cmp` is the instance of Compare. The two sifts
-- work on the vector behind it, and read its slots below `len`.
pub mod Order
pub mod Up
pub mod Down
pub mod Push
pub mod Pop
pub mod Build
pub mod Drain
pub mod Iter
mod Tests
use seqc.Prelude.{
  ℕ, zero, suc, ◌+◌, ◌-◌, ◌*◌, ◌/◌, ◌&&◌, Bool, true, false, Option, none, some, List, [], ◌∷◌, ltb,
  ◌==◌, if◌then◌else◌, get_or, Status, ok, not_found, invalid, bytes, Allocator, Uninit, copy_out,
  on_ok,
}
use seqc.Order.{Compare, is_lt}
use seqc.Vec as Array
use seqc.Vec.{Vec, slot, store, len as vec_len, elem_size as vec_elem_size}
use seqc.Vec.Iter.{as_slice}
use seqc.Iter.Slice.{Slice}

pub record Pqueue {ℓ} (A : Type ℓ) : Type ℓ where
  pub vec : Option (Vec A)

-- `sizeof(pqueue_t)`, with an `allocator_t` of `handle` bytes.
abbrev pub sizeof_pqueue : ℕ → ℕ
sizeof_pqueue handle = 16 + handle

-- `(i - 1) / 2`
abbrev pub parent : ℕ → ℕ
parent i = (i - 1) / 2

module _ {ℓ} {A : Type ℓ} where
  pub len : Option (Pqueue A) → ℕ
  len none = 0
  len (some q) = vec_len q.vec

  pub is_empty : Option (Pqueue A) → Bool
  is_empty none = true
  is_empty (some q) = vec_len q.vec == 0

  pub clear : Option (Pqueue A) → Option (Pqueue A)
  clear none = none
  clear (some q) = some (record { vec = Array.clear q.vec })

module _ {ℓ} {A : Type ℓ} ⦃u : Uninit A⦄ where
  -- The byte loop of `swap_elems` on two slots.
  unfoldable pub swap_elems : Vec A → ℕ → ℕ → Vec A
  swap_elems v i j = store (store v i (slot v j)) j (slot v i)

  pub peek_ptr : Option (Pqueue A) → Option A
  peek_ptr none = none
  peek_ptr (some q) = Array.get_ptr q.vec 0

  pub peek : Option (Pqueue A) → Status × Option A
  peek none = (invalid, none)
  peek (some q) = copy_out (peek_ptr (some q))

module _ {ℓ} {A : Type ℓ} ⦃u : Uninit A⦄ ⦃o : Compare A⦄ where
  -- `q->cmp(a, b) < 0` for the elements of two slots.
  abbrev pub less : Vec A → ℕ → ℕ → Bool
  less v i j = is_lt (o.cmp (slot v i) (slot v j))

  -- The loop `while (i > 0)`, for at most `fuel` rounds: `i` of them are enough.
  unfoldable pub sift_up_loop : ℕ → Vec A → ℕ → Vec A
  sift_up_loop zero v i = v
  sift_up_loop (suc fuel) v i =
      let rest = sift_up_loop fuel (swap_elems v i (parent i)) (parent i) in
      if ltb 0 i && less v i (parent i) then rest else v

  pub sift_up : Option (Vec A) → ℕ → Option (Vec A)
  unfolding sift_up_loop
  sift_up none i = none
  sift_up (some v) i = some (sift_up_loop i v i)

  -- `smallest` after the two tests of a round.
  unfoldable pub smallest : Vec A → ℕ → ℕ
  smallest v i =
      let left = 2 * i + 1 in
      let right = 2 * i + 2 in
      let first = if ltb left v.len && less v left i then left else i in
      if ltb right v.len && less v right first then right else first

  -- The loop `while (1)`, for at most `fuel` rounds: `len` of them are enough.
  unfoldable pub sift_down_loop : ℕ → Vec A → ℕ → Vec A
  sift_down_loop zero v i = v
  sift_down_loop (suc fuel) v i =
      let m = smallest v i in
      let rest = sift_down_loop fuel (swap_elems v i m) m in if m == i then v else rest

  pub sift_down : Option (Vec A) → ℕ → Option (Vec A)
  unfolding sift_down_loop
  sift_down none i = none
  sift_down (some v) i = some (sift_down_loop v.len v i)

  -- `pqueue_pop` behind its test for an element.
  unfoldable pub pop_root : Vec A → Option (Vec A)
  pop_root v =
      let last = v.len - 1 in
      let moved = if ltb 0 last then store v 0 (slot v last) else v in
      let (st, out, w) = Array.pop (some moved) in if ltb 0 (vec_len w) then sift_down w 0 else w

  pub pop : Option (Pqueue A) → Status × Option A × Option (Pqueue A)
  unfolding pop_root
  pop none = (not_found, none, none)
  pop (some q) = elim q.vec [
    | none ↦ (not_found, none, some q)
    | some v ↦
        if v.len == 0
        then (not_found, none, some q)
        else (ok, some (slot v 0), some (record { vec = pop_root v }))
  ]

  -- The loop of `pqueue_drain`, which pops `n` times into its block.
  unfoldable pub pop_all : ℕ → Pqueue A → List A × Option (Pqueue A)
  pop_all zero q = ([], some q)
  pop_all (suc n) q =
      let (st, out, r) = pop (some q) in
      let x : A = elim out [ none ↦ u.junk | some y ↦ y ] in
      elim r [ none ↦ (x ∷ [], none) | some r' ↦ let rest = pop_all n r' in (x ∷ rest.0, rest.1) ]

  -- The loop of Floyd's heapify, for the slots below `i`.
  unfoldable pub heapify : ℕ → Option (Vec A) → Option (Vec A)
  heapify zero v = v
  heapify (suc i) v = heapify i (sift_down v i)

module _ {ℓ κ} {A : Type ℓ} {H : Type κ} ⦃u : Uninit A⦄ ⦃o : Compare A⦄ ⦃al : Allocator H⦄ where
  pub create : ℕ → Bool → H → Option (Pqueue A) × H
  create size has_vtable h = elim (al.alloc (sizeof_pqueue al.handle_size) h) [
    | none ↦ (none, h)
    | some h₁ ↦ let (v, h₂) = Array.create size has_vtable h₁ in (some (record { vec = v }), h₂)
  ]

  pub push : Option (Pqueue A) → Option A → H → Status × Option (Pqueue A) × H
  unfolding sift_up
  push none x h = (invalid, none, h)
  push (some q) none h = (invalid, some q, h)
  push (some q) (some x) h =
      on_ok (Array.push q.vec (some x) h) (λ v. some (record { vec = v }))
        (λ v h'. (ok, some (record { vec = sift_up v (vec_len v - 1) }), h'))

  -- The loop of `pqueue_create_from_vec`, which pushes the slots [i .. i + n - 1] of a slice and does
  -- not look at the statuses.
  unfoldable pub push_slots : List A → ℕ → ℕ → Option (Vec A) → H → Option (Vec A) × H
  push_slots buf i zero v h = (v, h)
  push_slots buf i (suc n) v h =
      let (st, w, h') = Array.push v (some (get_or buf i u.junk)) h in push_slots buf (suc i) n w h'

  pub create_from_vec : Option (Vec A) → Bool → H → Option (Pqueue A) × H
  unfolding push_slots heapify create as_slice
  create_from_vec v has_vtable h =
      let s = as_slice v in
      let buf : List A = elim s.ptr [ none ↦ [] | some b ↦ b ] in
      let (q, h₁) = create s.elem_size has_vtable h in
      elim q [
        | none ↦ (none, h₁)
        | some p ↦
            let (w, h₂) = push_slots buf 0 s.len p.vec h₁ in
            (some (record { vec = if ltb 1 s.len then heapify (s.len / 2) w else w }), h₂)
      ]

  -- `pqueue_drain` reads `q->data` of any queue: its argument is not NULL.
  pub drain : Pqueue A → H → Slice A × Option (Pqueue A) × H
  unfolding pop_all
  drain q h =
      let n = len (some q) in
      let size = vec_elem_size q.vec in
      if n == 0
      then (record { ptr = none; len = 0; elem_size = size }, some q, h)
      else elim (al.alloc (bytes n size) h) [
        | none ↦ (record { ptr = none; len = 0; elem_size = size }, clear (some q), h)
        | some h' ↦
            let (xs, r) = pop_all n q in
            (record { ptr = some xs; len = n; elem_size = size }, r, h')
      ]

  pub destroy : Option (Pqueue A) → H → H
  destroy none h = h
  destroy (some q) h = al.free (sizeof_pqueue al.handle_size) (Array.destroy q.vec h)
