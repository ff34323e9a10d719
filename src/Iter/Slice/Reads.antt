-- ===== src/Iter/Slice/Reads.antt =====
-- What the functions of src/slice/slice.c and the iterators over a slice read: the slice's elements,
-- which are the first `len` slots of its block.
use mathlib.Core.List.{reverse-append}
use seqc.Prelude.{
  ℕ, zero, suc, ◌+◌, ◌-◌, ◌%◌, ◌≤◌, ◌<◌, ◌≡◌, refl, sym, ap, ◌∙◌, inl, inr, Bool, true, false,
  Option, none, some, List, [], ◌∷◌, reverse, length, take, drop, get_or, get_elem?, drop-get_or,
  take-suc, ◌==◌, leb, if◌then◌else◌, Bool-cases, size_mod, Uninit, Allocator, arith,
}
use seqc.Iter.Pair.{Steady, stops, writes}
use seqc.Iter.Slice.{
  Slice, slice_get_ptr, find_from, slice_find, slice_source, slice_rev_source, slice_next,
  slice_rev_next,
}

-- The first element on which the test holds.
abbrev pub find {ℓ} : {A : Type ℓ} → (A → Bool) → List A → Option A
find pred [] = none
find pred (x ∷ xs) = if pred x then some x else find pred xs

module _ {ℓ κ} {A : Type ℓ} {H : Type κ} ⦃u : Uninit A⦄ ⦃al : Allocator H⦄ where
  -- The `n` slots from `pos` on.
  slice_source-from :
      (size : ℕ) (buf : List A) (len e pos n : ℕ)
      → pos + n ≡ len
      → len ≤ length buf
      → len < size_mod
      → Steady {H = H}
          (slice_source size)
          (record { ptr = some buf; len = len; elem_size = e; pos = pos })
          (take n (drop pos buf))
          (record { ptr = some buf; len = len; elem_size = e; pos = len })
  unfolding slice_source slice_next
  slice_source-from size buf len e pos zero at inside small =
      let here : pos ≡ len = omega arith in
      let done : leb len len ≡ true = ground arith in rw here (stops (λ h. rw done refl))
  slice_source-from size buf len e pos (suc n) at inside small =
      let more : leb len pos ≡ false = ground arith in
      let exact : (pos + 1) % size_mod ≡ suc pos = omega arith in
      rw (drop-get_or pos buf u.junk (omega arith)) (
        writes (λ h. rw (more, exact))
          (slice_source-from size buf len e (suc pos) n (omega arith) inside small))

  slice_rev_source-to :
      (size : ℕ) (buf : List A) (len e n : ℕ)
      → n ≤ length buf
      → Steady {H = H}
          (slice_rev_source size)
          (record { ptr = some buf; len = len; elem_size = e; pos = n })
          (reverse (take n buf))
          (record { ptr = some buf; len = len; elem_size = e; pos = 0 })
  unfolding slice_rev_source slice_rev_next
  slice_rev_source-to size buf len e zero inside = stops (λ h. refl)
  slice_rev_source-to size buf len e (suc n) inside =
      let more : (suc n == 0) ≡ false = ground arith in
      let less : suc n - 1 ≡ n = omega arith in
      let x = get_or buf n u.junk in
      let turned : reverse (take (suc n) buf) ≡ x ∷ reverse (take n buf) =
        ap reverse (take-suc n buf u.junk (omega arith)) ∙ reverse-append (take n buf) (x ∷ []) in
      rw turned (writes (λ h. rw (more, less)) (slice_rev_source-to size buf len e n (omega arith)))

  -- A slice of NULL.
  pub slice-null :
      (size e : ℕ)
      → Steady {A = A} {H = H}
          (slice_source size)
          (record { ptr = none; len = 0; elem_size = e; pos = 0 })
          []
          (record { ptr = none; len = 0; elem_size = e; pos = 0 })
        × Steady {A = A} {H = H}
            (slice_rev_source size)
            (record { ptr = none; len = 0; elem_size = e; pos = 0 })
            []
            (record { ptr = none; len = 0; elem_size = e; pos = 0 })
  unfolding slice_source slice_rev_source slice_next slice_rev_next
  slice-null size e = (stops (λ h. refl), stops (λ h. refl))

  -- A slice of len slots of a block yields its elements in order from iter_from_slice, and in
  -- reverse order from iter_from_slice_rev, and leaves the heap as it is.
  pub slice-iters :
      (size : ℕ) (buf : List A) (len e : ℕ)
      → len ≤ length buf
      → len < size_mod
      → Steady {H = H}
          (slice_source size)
          (record { ptr = some buf; len = len; elem_size = e; pos = 0 })
          (take len buf)
          (record { ptr = some buf; len = len; elem_size = e; pos = len })
        × Steady {H = H}
            (slice_rev_source size)
            (record { ptr = some buf; len = len; elem_size = e; pos = len })
            (reverse (take len buf))
            (record { ptr = some buf; len = len; elem_size = e; pos = 0 })
  slice-iters size buf len e inside small = (
    slice_source-from size buf len e 0 len (omega arith) inside small,
    slice_rev_source-to size buf len e len inside,
  )

module _ {ℓ} {A : Type ℓ} where
  get_elem?-drop :
      (i : ℕ) (xs : List A)
      → i < length xs
      → (x : A) × (get_elem? xs i ≡ some x) × (drop i xs ≡ x ∷ drop (suc i) xs)
  get_elem?-drop i [] h = absurd (omega arith)
  get_elem?-drop zero (x ∷ xs) h = (x, refl, refl)
  get_elem?-drop (suc i) (x ∷ xs) h = get_elem?-drop i xs (omega arith)

  get_elem?-take :
      (n i : ℕ) (xs : List A) → get_elem? (take n xs) i ≡ (if leb n i then none else get_elem? xs i)
  get_elem?-take zero i xs = rw (let none_left : leb 0 i ≡ true = ground arith in none_left) refl
  get_elem?-take (suc n) i [] = elim (Bool-cases (leb (suc n) i)) [
    | inl past ↦ rw past refl
    | inr within ↦ rw within refl
  ]
  get_elem?-take (suc n) zero (x ∷ xs) =
      rw (let first : leb (suc n) 0 ≡ false = ground arith in first) refl
  get_elem?-take (suc n) (suc i) (x ∷ xs) =
      rw (let same : leb (suc n) (suc i) ≡ leb n i = ground arith in same) (get_elem?-take n i xs)

  find_from_lem :
      (pred : A → Bool) (buf : List A) (n i : ℕ)
      → i + n ≤ length buf
      → find_from pred buf n i ≡ find pred (take n (drop i buf))
  unfolding find_from
  find_from_lem pred buf zero i inside = refl
  find_from_lem pred buf (suc n) i inside =
      let (x, here, split) = get_elem?-drop i buf (omega arith) in
      let rest = find_from_lem pred buf n (suc i) (omega arith) in
      rw (split, find_from, here, rest) refl

  pub slice_reads :
      (s : Slice A) (buf : List A)
      → s.ptr ≡ some buf
      → 0 < s.elem_size
      → s.len ≤ length buf
      → ((i : ℕ) → slice_get_ptr s i ≡ get_elem? (take s.len buf) i)
        × ((pred : A → Bool) → slice_find s (some pred) ≡ find pred (take s.len buf))
  unfolding slice_get_ptr slice_find
  slice_reads s buf here sized inside =
      let wide : (s.elem_size == 0) ≡ false = ground arith in
      (
        λ i. rw (here, wide) (sym (get_elem?-take s.len i buf)),
        λ pred. rw (here, wide) (find_from_lem pred buf s.len 0 (omega arith)),
      )
