-- ===== src/Iter/Slice.antt =====
-- src/slice/slice.c, and the sources of src/iter/iter.c: iter_from_slice, iter_from_slice_rev and
-- iter_generate.
pub mod Reads
use seqc.Prelude.{
  ℕ, zero, suc, ◌+◌, ◌-◌, ◌%◌, ◌≤◌, ◌<◌, ◌≡◌, refl, sym, ap, ◌∙◌, inl, inr, Bool, true, false, ◌||◌,
  Option, none, some, List, [], ◌∷◌, reverse, length, take, drop, get_or, get_elem?, ◌==◌, leb, ltb,
  if◌then◌else◌, Bool-cases, Status, copy_out, size_mod, Uninit, Allocator, arith,
}
use seqc.Iter.{Next, got, ended, Source}

-- `slice_t`: a slice of NULL has no slots.
pub record Slice {ℓ} (A : Type ℓ) : Type ℓ where
  pub ptr : Option (List A)
  pub len : ℕ
  pub elem_size : ℕ

module _ {ℓ} {A : Type ℓ} where
  pub slice_get_ptr : Slice A → ℕ → Option A
  slice_get_ptr s i = elim s.ptr [
    | none ↦ none
    | some buf ↦ if s.elem_size == 0 || leb s.len i then none else get_elem? buf i
  ]

  -- The loop of `slice_find` from `i` on, over the `n` slots that are left.
  pub find_from : (A → Bool) → List A → ℕ → ℕ → Option A
  find_from pred buf zero i = none
  find_from pred buf (suc n) i =
      let rest = find_from pred buf n (suc i) in
      elim (get_elem? buf i) [ none ↦ none | some x ↦ if pred x then some x else rest ]

  pub slice_find : Slice A → Option (A → Bool) → Option A
  unfolding find_from
  slice_find s none = none
  slice_find s (some pred) = elim s.ptr [
    | none ↦ none
    | some buf ↦ if s.elem_size == 0 then none else find_from pred buf s.len 0
  ]

  pub slice_any : Slice A → Option (A → Bool) → Bool
  slice_any s pred = elim (slice_find s pred) [ none ↦ false | some x ↦ true ]

  pub slice_get : Slice A → ℕ → Status × Option A
  slice_get s i = copy_out (slice_get_ptr s i)

-- `slice_iter_state_t`.
pub record SliceIter {ℓ} (A : Type ℓ) : Type ℓ where
  pub ptr : Option (List A)
  pub len : ℕ
  pub elem_size : ℕ
  pub pos : ℕ

-- `generate_state_t`: what the client's `ctx` holds; its function is an argument.
pub record Generate {ℓ} (C : Type ℓ) : Type ℓ where
  pub ctx : C

abbrev pub sizeof_slice_iter : ℕ
sizeof_slice_iter = 32

abbrev pub sizeof_generate : ℕ
sizeof_generate = 16

-- The element at `i` of a block.
abbrev pub elem_at {ℓ} : {A : Type ℓ} ⦃u : Uninit A⦄ → Option (List A) → ℕ → A
elem_at ⦃u⦄ none i = u.junk
elem_at ⦃u⦄ (some buf) i = get_or buf i u.junk

module _ {ℓ κ} {A : Type ℓ} {H : Type κ} ⦃u : Uninit A⦄ ⦃al : Allocator H⦄ where
  pub slice_next : SliceIter A → H → Next A (SliceIter A) H
  slice_next s h =
      if leb s.len s.pos
      then ended s h
      else got (elem_at s.ptr s.pos) (record s { pos = (s.pos + 1) % size_mod }) h

  pub slice_rev_next : SliceIter A → H → Next A (SliceIter A) H
  slice_rev_next s h =
      if s.pos == 0
      then ended s h
      else got (elem_at s.ptr (s.pos - 1)) (record s { pos = s.pos - 1 }) h

  unfoldable pub slice_drop : SliceIter A → H → H
  slice_drop s h = al.free sizeof_slice_iter h

  unfoldable pub slice_source : ℕ → Source A (SliceIter A) H
  unfolding slice_next slice_drop
  slice_source size = record { next = slice_next; destroy = slice_drop; elem_size = size }

  pub slice_rev_source : ℕ → Source A (SliceIter A) H
  unfolding slice_rev_next slice_drop
  slice_rev_source size = record { next = slice_rev_next; destroy = slice_drop; elem_size = size }

  unfoldable pub iter_from_slice : Slice A → H → Option (SliceIter A × H)
  iter_from_slice s h = elim (al.alloc sizeof_slice_iter h) [
    | none ↦ none
    | some h' ↦ some (record { ptr = s.ptr; len = s.len; elem_size = s.elem_size; pos = 0 }, h')
  ]

  unfoldable pub iter_from_slice_rev : Slice A → H → Option (SliceIter A × H)
  iter_from_slice_rev s h = elim (al.alloc sizeof_slice_iter h) [
    | none ↦ none
    | some h' ↦ some (record { ptr = s.ptr; len = s.len; elem_size = s.elem_size; pos = s.len }, h')
  ]

-- A client's function: it writes an element, or returns false, and moves its context on.
abbrev pub Generator {ℓ κ} : Type ℓ → Type κ → Type (ℓ ⊔ κ)
Generator A C = C → Option A × C

abbrev pub generated {ℓ κ μ} :
    {A : Type ℓ} {C : Type κ} {H : Type μ} → Option A × C → H → Next A (Generate C) H
generated (none, c) h = ended (record { ctx = c }) h
generated (some x, c) h = got x (record { ctx = c }) h

module _ {κ μ} {C : Type μ} {H : Type κ} ⦃al : Allocator H⦄ where
  pub generate_drop : Generate C → H → H
  generate_drop s h = al.free sizeof_generate h

  pub iter_generate : C → H → Option (Generate C × H)
  iter_generate ctx h = elim (al.alloc sizeof_generate h) [
    | none ↦ none
    | some h' ↦ some (record { ctx = ctx }, h')
  ]

module _ {ℓ κ μ} {A : Type ℓ} {C : Type μ} {H : Type κ} ⦃al : Allocator H⦄ where
  pub generate_next : Generator A C → Generate C → H → Next A (Generate C) H
  generate_next fn s h = generated (fn s.ctx) h

  pub generate_source : Generator A C → ℕ → Source A (Generate C) H
  unfolding generate_next generate_drop
  generate_source fn size = record {
    next = generate_next fn;
    destroy = generate_drop;
    elem_size = size;
  }
