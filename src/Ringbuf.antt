-- ===== src/Ringbuf.antt =====
-- src/ringbuf/ringbuf.c: the double-ended queue `ringbuf_t` over a circular block whose capacity
-- is a power of two.
--
-- A handle `ringbuf_t *` is an `Option (Ringbuf A)` and a pointer to an element an `Option A`,
-- with `none` for NULL. `buf` is the field `data`, without slots where it is NULL. What goes
-- through `out` is a part of the result.
pub mod Valid
pub mod Grow
pub mod Refine
pub mod Iter
mod Tests
use seqc.Prelude.{
  ℕ, zero, suc, ◌+◌, ◌-◌, ◌*◌, ◌/◌, ◌%◌, bit_and, Bool, true, false, Option, none, some, List, [],
  ◌∷◌, ltb, leb, ◌==◌, if◌then◌else◌, get_or, set, Status, ok, not_found, oom, invalid, size_mod,
  size_max, bytes, Allocator, Uninit, fresh, memcpy, copy_out, on_ok,
}

pub record Ringbuf {ℓ} (A : Type ℓ) : Type ℓ where
  pub buf : List A
  pub cap : ℕ
  pub len : ℕ
  pub head : ℕ
  pub elem_size : ℕ

abbrev pub initial_cap : ℕ
initial_cap = 8

-- `sizeof(ringbuf_t)`, with an `allocator_t` of `handle` bytes.
abbrev pub sizeof_ringbuf : ℕ → ℕ
sizeof_ringbuf handle = 40 + handle

module _ {ℓ} {A : Type ℓ} where
  -- `cap - 1`, which wraps at 0.
  pub mask : Ringbuf A → ℕ
  mask r = (r.cap + size_mod - 1) % size_mod

  -- `rb_slot`.
  pub slot_of : Ringbuf A → ℕ → ℕ
  unfolding mask
  slot_of r logical = bit_and ((r.head + logical) % size_mod) (mask r)

  pub len : Option (Ringbuf A) → ℕ
  len none = 0
  len (some r) = r.len

  pub cap_of : Option (Ringbuf A) → ℕ
  cap_of none = 0
  cap_of (some r) = r.cap

  pub is_empty : Option (Ringbuf A) → Bool
  is_empty none = true
  is_empty (some r) = r.len == 0

  pub clear : Option (Ringbuf A) → Option (Ringbuf A)
  clear none = none
  clear (some r) = some (record r { len = 0; head = 0 })

  -- `ringbuf_push_back` behind its check for room.
  pub append : Ringbuf A → A → Ringbuf A
  unfolding slot_of
  append r x = record r { buf = set r.buf (slot_of r r.len) x; len = (r.len + 1) % size_mod }

  -- `ringbuf_push_front` behind its check for room.
  pub prepend : Ringbuf A → A → Ringbuf A
  unfolding mask
  prepend r x =
      let before = bit_and (((r.head + r.cap) % size_mod + size_mod - 1) % size_mod) (mask r) in
      record r { buf = set r.buf before x; head = before; len = (r.len + 1) % size_mod }

  pub next_cap : Ringbuf A → ℕ
  next_cap r = if r.cap == 0 then initial_cap else r.cap * 2 % size_mod

  -- The copying in `rb_grow`: from the head on, and then what wrapped round the end.
  pub linearise : Ringbuf A → List A → List A
  linearise r nd =
      if ltb 0 r.len
      then (if leb ((r.head + r.len) % size_mod) r.cap
          then memcpy nd 0 r.buf r.head r.len
          else let first = r.cap - r.head in
            memcpy (memcpy nd 0 r.buf r.head first) first r.buf 0 (r.len - first))
      else nd

module _ {ℓ} {A : Type ℓ} ⦃u : Uninit A⦄ where
  -- What stands in slot `i`.
  pub at : Ringbuf A → ℕ → A
  at r i = get_or r.buf i u.junk

  pub pop_front : Option (Ringbuf A) → Status × Option A × Option (Ringbuf A)
  unfolding at mask
  pop_front none = (not_found, none, none)
  pop_front (some r) = if r.len == 0 then (not_found, none, some r) else (
    ok,
    some (at r r.head),
    some (record r { head = bit_and ((r.head + 1) % size_mod) (mask r); len = r.len - 1 }),
  )

  pub pop_back : Option (Ringbuf A) → Status × Option A × Option (Ringbuf A)
  unfolding at slot_of
  pop_back none = (not_found, none, none)
  pop_back (some r) =
      if r.len == 0
      then (not_found, none, some r)
      else (ok, some (at r (slot_of r (r.len - 1))), some (record r { len = r.len - 1 }))

  pub get_ptr : Option (Ringbuf A) → ℕ → Option A
  unfolding at slot_of
  get_ptr none i = none
  get_ptr (some r) i = if leb r.len i then none else some (at r (slot_of r i))

  pub get : Option (Ringbuf A) → ℕ → Status × Option A
  get none i = (invalid, none)
  get (some r) i = copy_out (get_ptr (some r) i)

  pub front_ptr : Option (Ringbuf A) → Option A
  front_ptr r = get_ptr r 0

  pub back_ptr : Option (Ringbuf A) → Option A
  back_ptr none = none
  back_ptr (some r) = if ltb 0 r.len then get_ptr (some r) (r.len - 1) else none

  pub front : Option (Ringbuf A) → Status × Option A
  front none = (invalid, none)
  front (some r) = copy_out (front_ptr (some r))

  pub back : Option (Ringbuf A) → Status × Option A
  back none = (invalid, none)
  back (some r) = copy_out (back_ptr (some r))

module _ {ℓ κ} {A : Type ℓ} {H : Type κ} ⦃u : Uninit A⦄ ⦃al : Allocator H⦄ where
  pub create : ℕ → H → Option (Ringbuf A) × H
  create size h = elim (al.alloc (sizeof_ringbuf al.handle_size) h) [
    | none ↦ (none, h)
    | some h' ↦ (some (record { buf = []; cap = 0; len = 0; head = 0; elem_size = size }), h')
  ]

  -- `if (r->data) mem_free(...)`
  pub free_buf : Ringbuf A → H → H
  free_buf r h = elim r.buf [ [] ↦ h | _ ∷ _ ↦ al.free (bytes r.cap r.elem_size) h ]

  -- `rb_grow`.
  pub grow : Ringbuf A → H → Status × Ringbuf A × H
  unfolding next_cap linearise free_buf
  grow r h =
      if ltb (size_max / 2) r.cap
      then (oom, r, h)
      else let size = bytes (next_cap r) r.elem_size in
        elim (al.alloc size h) [
          | none ↦ (oom, r, h)
          | some h' ↦ (
            ok,
            record r { buf = linearise r (fresh size r.elem_size); cap = next_cap r; head = 0 },
            free_buf r h',
          )
        ]

  pub push_back : Option (Ringbuf A) → Option A → H → Status × Option (Ringbuf A) × H
  unfolding grow append
  push_back none x h = (invalid, none, h)
  push_back (some r) none h = (invalid, some r, h)
  push_back (some r) (some x) h =
      if r.len == r.cap
      then on_ok (grow r h) some (λ s h'. (ok, some (append s x), h'))
      else (ok, some (append r x), h)

  pub push_front : Option (Ringbuf A) → Option A → H → Status × Option (Ringbuf A) × H
  unfolding grow prepend
  push_front none x h = (invalid, none, h)
  push_front (some r) none h = (invalid, some r, h)
  push_front (some r) (some x) h =
      if r.len == r.cap
      then on_ok (grow r h) some (λ s h'. (ok, some (prepend s x), h'))
      else (ok, some (prepend r x), h)

  pub destroy : Option (Ringbuf A) → H → H
  unfolding free_buf
  destroy none h = h
  destroy (some r) h = al.free (sizeof_ringbuf al.handle_size) (free_buf r h)
