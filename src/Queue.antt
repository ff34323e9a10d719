-- ===== src/Queue.antt =====
-- src/queue/queue.c: the FIFO `queue_t` over a growable circular block.
--
-- A handle `queue_t *` is an `Option (Queue A)` and a pointer to an element an `Option A`, with
-- `none` for NULL. `buf` has no slots where it is NULL. What goes through `out` is a part of the
-- result.
pub mod Valid
pub mod Refine
pub mod Iter
mod Tests
use seqc.Prelude.{
  ℕ, zero, suc, ◌+◌, ◌-◌, ◌*◌, ◌/◌, ◌%◌, Bool, true, false, Option, none, some, List, [], ◌∷◌, ltb,
  ◌==◌, if◌then◌else◌, get_or, set, Status, ok, not_found, oom, invalid, size_mod, size_max, bytes,
  Allocator, Uninit, fresh, copy_out, on_ok, minus_one,
}

pub record Queue {ℓ} (A : Type ℓ) : Type ℓ where
  pub buf : List A
  pub cap : ℕ
  pub len : ℕ
  pub head : ℕ
  pub elem_size : ℕ

abbrev pub initial_cap : ℕ
initial_cap = 16

-- `sizeof(queue_t)`, with an `allocator_t` of `handle` bytes.
abbrev pub sizeof_queue : ℕ → ℕ
sizeof_queue handle = 40 + handle

module _ {ℓ} {A : Type ℓ} where
  pub len : Option (Queue A) → ℕ
  len none = 0
  len (some q) = q.len

  pub is_empty : Option (Queue A) → Bool
  is_empty none = true
  is_empty (some q) = q.len == 0

  pub clear : Option (Queue A) → Option (Queue A)
  clear none = none
  clear (some q) = some (record q { len = 0; head = 0 })

  -- `queue_push` behind its check for room.
  pub append : Queue A → A → Queue A
  append q x =
      let tail = (q.head + q.len) % size_mod % q.cap in
      record q { buf = set q.buf tail x; len = (q.len + 1) % size_mod }

  -- The index of the last element.
  pub last : Queue A → ℕ
  last q = minus_one (q.head + q.len) % q.cap

  pub next_cap : Queue A → ℕ
  next_cap q = if q.cap == 0 then initial_cap else q.cap * 2 % size_mod

module _ {ℓ} {A : Type ℓ} ⦃u : Uninit A⦄ where
  -- What stands in slot `i`.
  pub slot : Queue A → ℕ → A
  slot q i = get_or q.buf i u.junk

  -- The `for` loop of `queue_grow`, with `n` rounds left from round `i` on.
  pub copy_from : Queue A → ℕ → ℕ → List A → List A
  unfolding slot
  copy_from q zero i new_buf = new_buf
  copy_from q (suc n) i new_buf =
      let src = (q.head + i) % size_mod % (if q.cap == 0 then 1 else q.cap) in
      copy_from q n (i + 1) (set new_buf i (slot q src))

  pub front_ptr : Option (Queue A) → Option A
  unfolding slot
  front_ptr none = none
  front_ptr (some q) = if q.len == 0 then none else some (slot q q.head)

  pub back_ptr : Option (Queue A) → Option A
  unfolding slot last
  back_ptr none = none
  back_ptr (some q) = if q.len == 0 then none else some (slot q (last q))

  pub front : Option (Queue A) → Status × Option A
  front none = (invalid, none)
  front (some q) = copy_out (front_ptr (some q))

  pub back : Option (Queue A) → Status × Option A
  back none = (invalid, none)
  back (some q) = copy_out (back_ptr (some q))

  pub pop : Option (Queue A) → Status × Option A × Option (Queue A)
  unfolding slot
  pop none = (not_found, none, none)
  pop (some q) = if q.len == 0 then (not_found, none, some q) else (
    ok,
    some (slot q q.head),
    some (record q { head = (q.head + 1) % size_mod % q.cap; len = q.len - 1 }),
  )

module _ {ℓ κ} {A : Type ℓ} {H : Type κ} ⦃u : Uninit A⦄ ⦃al : Allocator H⦄ where
  pub create : ℕ → H → Option (Queue A) × H
  create size h = elim (al.alloc (sizeof_queue al.handle_size) h) [
    | none ↦ (none, h)
    | some h' ↦ (some (record { buf = []; cap = 0; len = 0; head = 0; elem_size = size }), h')
  ]

  -- `if (q->buf) mem_free(...)`
  pub free_buf : Queue A → H → H
  free_buf q h = elim q.buf [ [] ↦ h | _ ∷ _ ↦ al.free (bytes q.cap q.elem_size) h ]

  pub grow : Queue A → H → Status × Queue A × H
  unfolding next_cap copy_from free_buf
  grow q h =
      if ltb (size_max / 2) q.cap
      then (oom, q, h)
      else let size = bytes (next_cap q) q.elem_size in
        elim (al.alloc size h) [
          | none ↦ (oom, q, h)
          | some h' ↦ (
            ok,
            record q {
              buf = copy_from q q.len 0 (fresh size q.elem_size);
              cap = next_cap q;
              head = 0;
            },
            free_buf q h',
          )
        ]

  pub push : Option (Queue A) → Option A → H → Status × Option (Queue A) × H
  unfolding grow append
  push none x h = (invalid, none, h)
  push (some q) none h = (invalid, some q, h)
  push (some q) (some x) h =
      if q.len == q.cap
      then on_ok (grow q h) some (λ r h'. (ok, some (append r x), h'))
      else (ok, some (append q x), h)

  pub destroy : Option (Queue A) → H → H
  unfolding free_buf
  destroy none h = h
  destroy (some q) h = al.free (sizeof_queue al.handle_size) (free_buf q h)
