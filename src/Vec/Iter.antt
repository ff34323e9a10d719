-- ===== src/Vec/Iter.antt =====
-- vec_as_slice, vec_iter and vec_iter_rev of src/vec/vec.c: iterators over the slice of a vector's
-- elements.
use seqc.Prelude.{
  ℕ, ◌≡◌, refl, ◌≤◌, ◌<◌, Option, none, some, List, [], ◌∷◌, reverse, length, take, size_mod,
  Uninit, Allocator, arith,
}
use seqc.Iter.Slice.{
  Slice, SliceIter, sizeof_slice_iter, slice_source, slice_rev_source, iter_from_slice,
  iter_from_slice_rev,
}
use seqc.Iter.Slice.Reads.{slice-iters, slice-null}
use seqc.Iter.Pair.{Steady}
use seqc.Vec.{Vec}
use seqc.Vec.Valid.{IsValid, contents, cap_bound}

-- The pointer to the block, NULL without one.
abbrev pub data_ptr {ℓ} : {A : Type ℓ} → List A → Option (List A)
data_ptr [] = none
data_ptr (x ∷ xs) = some (x ∷ xs)

module _ {ℓ} {A : Type ℓ} where
  unfoldable pub as_slice : Option (Vec A) → Slice A
  as_slice none = record { ptr = none; len = 0; elem_size = 0 }
  as_slice (some v) = record { ptr = data_ptr v.buf; len = v.len; elem_size = v.elem_size }

module _ {ℓ κ} {A : Type ℓ} {H : Type κ} ⦃u : Uninit A⦄ ⦃al : Allocator H⦄ where
  pub iter : Option (Vec A) → H → Option (SliceIter A × H)
  unfolding as_slice
  iter none h = none
  iter (some v) h = iter_from_slice (as_slice (some v)) h

  pub iter_rev : Option (Vec A) → H → Option (SliceIter A × H)
  unfolding as_slice
  iter_rev none h = none
  iter_rev (some v) h = iter_from_slice_rev (as_slice (some v)) h

  over_slots :
      (size len : ℕ) (buf : List A)
      → len ≤ length buf
      → len < size_mod
      → Steady {H = H}
          (slice_source size)
          (record { ptr = data_ptr buf; len = len; elem_size = size; pos = 0 })
          (take len buf)
          (record { ptr = data_ptr buf; len = len; elem_size = size; pos = len })
        × Steady {H = H}
            (slice_rev_source size)
            (record { ptr = data_ptr buf; len = len; elem_size = size; pos = len })
            (reverse (take len buf))
            (record { ptr = data_ptr buf; len = len; elem_size = size; pos = 0 })
  over_slots size len (x ∷ xs) inside small = slice-iters size (x ∷ xs) len size inside small
  over_slots size len [] inside small =
      let empty : len ≡ 0 = omega arith in rw empty (slice-null size size)

  -- Where the allocator gives the state, the iterators of a valid vector yield its elements in order
  -- and in reverse order, and leave the heap as it is.
  pub vec_iters :
      (v : Vec A) (h h' : H)
      → IsValid v
      → al.alloc sizeof_slice_iter h ≡ some h'
      → ((s : SliceIter A) × (t : SliceIter A) × (iter (some v) h ≡ some (s, h'))
          × Steady {H = H} (slice_source v.elem_size) s (contents v) t)
        × ((s : SliceIter A) × (t : SliceIter A) × (iter_rev (some v) h ≡ some (s, h'))
            × Steady {H = H} (slice_rev_source v.elem_size) s (reverse (contents v)) t)
  unfolding iter iter_rev as_slice iter_from_slice iter_from_slice_rev
  vec_iters v h h' valid given =
      let (forward, backward) =
        over_slots v.elem_size v.len v.buf (omega (arith, valid.slots, valid.filled))
          (omega (arith, cap_bound valid, valid.filled)) in
      (
        (_, _, rw (given, iter, iter_from_slice) refl, forward),
        (_, _, rw (given, iter_rev, iter_from_slice_rev) refl, backward),
      )
