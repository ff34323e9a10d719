-- ===== src/Vec.antt =====
-- src/vec/vec.c: the growable array `vec_t`.
--
-- A handle `vec_t *` is an `Option (Vec A)`, and a pointer to an element an `Option A`: `none` is
-- NULL. `buf` is the field `data`: the slots of its block, none of them where `data` is NULL (a
-- block is never empty). What goes through an `out` parameter is a part of the result, and is
-- thrown away by a caller that passes NULL.
pub mod Valid
pub mod Grow
pub mod Edit
pub mod Search
pub mod Iter
mod Tests
use seqc.Prelude.{
  ℕ, zero, suc, ◌++◌, take, drop, ◌+◌, ◌-◌, ◌*◌, ◌/◌, ◌%◌, ◌≤◌, ◌<◌, Bool, true, false, not, ◌||◌,
  Option, none, some, List, [], ◌∷◌, ltb, leb, ◌==◌, if◌then◌else◌, get_or, set, Status, ok,
  not_found, oom, invalid, size_mod, size_max, bytes, Allocator, Uninit, fresh, moved, memmove,
  copy_out, on_ok,
}

pub record Vec {ℓ} (A : Type ℓ) : Type ℓ where
  pub buf : List A
  pub len : ℕ
  pub cap : ℕ
  pub elem_size : ℕ

abbrev pub initial_cap : ℕ
initial_cap = 16

-- `sizeof(vec_t)`, with an `allocator_t` of `handle` bytes.
abbrev pub sizeof_vec : ℕ → ℕ
sizeof_vec handle = 32 + handle

module _ {ℓ} {A : Type ℓ} where
  unfoldable pub len : Option (Vec A) → ℕ
  len none = 0
  len (some v) = v.len

  unfoldable pub elem_size : Option (Vec A) → ℕ
  elem_size none = 0
  elem_size (some v) = v.elem_size

  pub cap : Option (Vec A) → ℕ
  cap none = 0
  cap (some v) = v.cap

  pub is_empty : Option (Vec A) → Bool
  is_empty none = true
  is_empty (some v) = v.len == 0

  -- `memcpy` into slot `i`.
  unfoldable pub store : Vec A → ℕ → A → Vec A
  store v i x = record v { buf = set v.buf i x }

  -- `vec_push` behind its check for room.
  unfoldable pub append : Vec A → A → Vec A
  unfolding store
  append v x = store (record v { len = (v.len + 1) % size_mod }) v.len x

  pub set_elem : Option (Vec A) → ℕ → Option A → Option (Vec A)
  unfolding store
  set_elem none i x = none
  set_elem (some v) i none = some v
  set_elem (some v) i (some x) = if leb v.len i then some v else some (store v i x)

  -- The loop moves the slots [i + 1 .. len - 1] down by one.
  pub remove : Option (Vec A) → ℕ → Option (Vec A)
  remove none i = none
  remove (some v) i =
      if leb v.len i
      then some v
      else some (record v { buf = memmove v.buf i (i + 1) (v.len - i - 1); len = v.len - 1 })

  unfoldable pub clear : Option (Vec A) → Option (Vec A)
  clear none = none
  clear (some v) = some (record v { len = 0 })

  pub truncate : Option (Vec A) → ℕ → Option (Vec A)
  truncate none n = none
  truncate (some v) n = if ltb n v.len then some (record v { len = n }) else some v

  -- `v->cap == 0 ? INITIAL_CAP : v->cap * 2`
  pub next_cap : Vec A → ℕ
  next_cap v = if v.cap == 0 then initial_cap else v.cap * 2 % size_mod

  -- The slots [i .. len - 1] move up by one, then the element goes into slot `i`.
  pub open_slot : Vec A → ℕ → A → Vec A
  unfolding store
  open_slot v i x =
      let up = memmove v.buf (i + 1) i (v.len - i) in
      store (record v { buf = up; len = (v.len + 1) % size_mod }) i x

module _ {ℓ} {A : Type ℓ} ⦃u : Uninit A⦄ where
  -- What stands at slot `i`.
  unfoldable pub slot : Vec A → ℕ → A
  slot v i = get_or v.buf i u.junk

  pub get_ptr : Option (Vec A) → ℕ → Option A
  unfolding slot
  get_ptr none i = none
  get_ptr (some v) i = if leb v.len i then none else some (slot v i)

  pub get : Option (Vec A) → ℕ → Status × Option A
  get none i = (invalid, none)
  get (some v) i = copy_out (get_ptr (some v) i)

  unfoldable pub pop : Option (Vec A) → Status × Option A × Option (Vec A)
  unfolding slot
  pop none = (not_found, none, none)
  pop (some v) =
      if v.len == 0
      then (not_found, none, some v)
      else (ok, some (slot v (v.len - 1)), some (record v { len = v.len - 1 }))

  -- The `for` loop of `vec_find`, with `n` slots left from slot `i` on.
  pub find_from : Vec A → (A → Bool) → ℕ → ℕ → Option A
  unfolding slot
  find_from v pred zero i = none
  find_from v pred (suc n) i =
      let rest = find_from v pred n (i + 1) in if pred (slot v i) then some (slot v i) else rest

  pub find : Option (Vec A) → Option (A → Bool) → Option A
  unfolding find_from
  find none pred = none
  find (some v) none = none
  find (some v) (some pred) = find_from v pred v.len 0

  pub any : Option (Vec A) → Option (A → Bool) → Bool
  any v pred = elim (find v pred) [ none ↦ false | some _ ↦ true ]

module _ {ℓ κ} {A : Type ℓ} {H : Type κ} ⦃u : Uninit A⦄ ⦃al : Allocator H⦄ where
  -- `has_vtable` is the test `allocator.vt`.
  unfoldable pub create : ℕ → Bool → H → Option (Vec A) × H
  create size has_vtable h =
      if size == 0 || not has_vtable
      then (none, h)
      else elim (al.alloc (sizeof_vec al.handle_size) h) [
        | none ↦ (none, h)
        | some h' ↦ (some (record { buf = []; len = 0; cap = 0; elem_size = size }), h')
      ]

  pub create_with_cap : ℕ → ℕ → Bool → H → Option (Vec A) × H
  create_with_cap size capacity has_vtable h =
      if size == 0 || capacity == 0 || not has_vtable
      then (none, h)
      else elim (al.alloc (sizeof_vec al.handle_size) h) [
        | none ↦ (none, h)
        | some h₁ ↦ elim (al.alloc (bytes capacity size) h₁) [
          | none ↦ (none, al.free (sizeof_vec al.handle_size) h₁)
          | some h₂ ↦ (
            some (record {
              buf = fresh (bytes capacity size) size;
              len = 0;
              cap = capacity;
              elem_size = size;
            }),
            h₂,
          )
        ]
      ]

  -- Both ways to grow: the block is moved, and `cap` set.
  pub regrow : Vec A → ℕ → H → Status × Vec A × H
  regrow v new_cap h =
      let old = bytes v.len v.elem_size in
      let new = bytes new_cap v.elem_size in
      elim (al.realloc old new h) [
        | none ↦ (oom, v, h)
        | some h' ↦ (ok, record v { buf = moved old new v.elem_size v.buf; cap = new_cap }, h')
      ]

  unfoldable pub push : Option (Vec A) → Option A → H → Status × Option (Vec A) × H
  unfolding append regrow next_cap
  push none x h = (invalid, none, h)
  push (some v) none h = (invalid, some v, h)
  push (some v) (some x) h =
      if v.len == v.cap
      then (if ltb (size_max / 2) v.cap
          then (oom, some v, h)
          else on_ok (regrow v (next_cap v) h) some (λ w h'. (ok, some (append w x), h')))
      else (ok, some (append v x), h)

  pub reserve : Option (Vec A) → ℕ → H → Status × Option (Vec A) × H
  unfolding regrow
  reserve none capacity h = (invalid, none, h)
  reserve (some v) capacity h =
      if leb capacity v.cap
      then (ok, some v, h)
      else let (s, w, h') = regrow v capacity h in (s, some w, h')

  pub insert : Option (Vec A) → ℕ → Option A → H → Status × Option (Vec A) × H
  unfolding open_slot
  insert none i x h = (invalid, none, h)
  insert (some v) i none h = (invalid, some v, h)
  insert (some v) i (some x) h =
      if ltb v.len i
      then (invalid, some v, h)
      else if v.len == v.cap
      then on_ok (reserve (some v) (next_cap v) h) (λ w. w)
          (λ w h'. (ok, elim w [ none ↦ none | some w' ↦ some (open_slot w' i x) ], h'))
      else (ok, some (open_slot v i x), h)

  pub destroy : Option (Vec A) → H → H
  destroy none h = h
  destroy (some v) h =
      let h' : H = elim v.buf [ [] ↦ h | _ ∷ _ ↦ al.free (bytes v.cap v.elem_size) h ] in
      al.free (sizeof_vec al.handle_size) h'

-- `qsort` of the C library, as a parameter: it rewrites the first `len` slots.
module _ {ℓ κ} {A : Type ℓ} {C : Type κ} (qsort : (A → A → C) → List A → List A) where
  pub sort : Option (Vec A) → Option (A → A → C) → Option (Vec A)
  sort none cmp = none
  sort (some v) none = some v
  sort (some v) (some cmp) =
      if ltb v.len 2
      then some v
      else some (record v { buf = qsort cmp (take v.len v.buf) ++ drop v.len v.buf })
