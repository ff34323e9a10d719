-- ===== src/Extend/Vectors.antt =====
-- vec_extend of src/vec/vec.c with the iterators of vec_iter: the elements of one vector behind those
-- of another.
use seqc.Prelude.{
  ℕ, ◌<◌, ◌≡◌, refl, sym, ap, ◌∙◌, inl, inr, some, [], ◌∷◌, ◌++◌, length, ok, Allocator, IsBounded,
  Uninit,
}
use seqc.Iter.Slice.{SliceIter, sizeof_slice_iter, slice_source}
use seqc.Vec.{Vec}
use seqc.Vec as Vecs
use seqc.Vec.Valid as Valid
use seqc.Vec.Grow.{Blocked, vec_push_lem}
use seqc.Vec.Iter as Iter
use seqc.Vec.Iter.{vec_iters}
use seqc.Extend.{only_ok, vec_extend}
use seqc.Extend.Adds.{Adds, Extended, snoc, put_all-snoc, extend_with_lem}

module _ {ℓ κ} {A : Type ℓ} {H : Type κ} ⦃u : Uninit A⦄ ⦃al : Allocator H⦄ (size : ℕ)
    (bounded : IsBounded al) where
  vec-Adds :
      Adds {A = A} {C = Vec A} {H = H} only_ok
        (λ coll x. Vecs.push coll (some x))
        snoc
        (λ n xs v. Valid.Holds size xs v)
        Blocked
  unfolding snoc
  vec-Adds = record {
    at_oom = refl;
    adds = λ n xs v x h holds. elim (vec_push_lem v x h bounded holds.0) [
      | inl failed ↦ inr failed
      | inr (w, h', pushed, (valid, same, kept)) ↦
          inl (
            ok,
            w,
            h',
            pushed,
            refl,
            (valid, same ∙ ap (λ l. l ++ (x ∷ [])) holds.1, kept ∙ holds.2),
          )
    ];
  }

module _ {ℓ κ} {A : Type ℓ} {H : Type κ} ⦃u : Uninit A⦄ ⦃al : Allocator H⦄ where
  -- With an allocator that refuses requests of more than PTRDIFF_MAX bytes but gives the iterator
  -- and the temporary element, of two valid vectors with the same element size, vec_iter of the
  -- second makes an iterator with which vec_extend of the first leaves the vector and the heap that
  -- vec_push of all elements of the second leaves, holding them behind its own, and returns
  -- SEQC_OK; or those that vec_push of the elements in front of one leaves, where the vector is
  -- full and the allocator then refuses the larger block, and returns SEQC_OOM. Either way the
  -- iterator is then destroyed, the temporary element released, and the first vector valid.
  pub vec_extend-iter :
      (v w : Vec A) (fuel : ℕ) (h h₁ h₂ : H)
      → IsBounded al
      → Valid.IsValid v
      → Valid.IsValid w
      → w.elem_size ≡ v.elem_size
      → al.alloc sizeof_slice_iter h ≡ some h₁
      → al.alloc v.elem_size h₁ ≡ some h₂
      → length (Valid.contents w) < fuel
      → (s : SliceIter A) × (t : SliceIter A) × (Iter.iter (some w) h ≡ some (s, h₁))
        × Extended
            (slice_source w.elem_size)
            (λ coll x. Vecs.push coll (some x))
            (λ r h'. Blocked r h')
            (λ zs r. Valid.Holds v.elem_size (Valid.contents v ++ zs) r)
            v.elem_size
            v
            h₂
            (Valid.contents w)
            t
            (vec_extend (slice_source w.elem_size) fuel (some v) (some s) h₁)
  unfolding vec_extend slice_source
  vec_extend-iter v w fuel h h₁ h₂ bounded valid valid_w same given more less =
      let ((s, t, made, reads), back_iter) = vec_iters w h h₁ valid_w given in
      (
        s,
        t,
        made,
        extend_with_lem (slice_source w.elem_size) (vec-Adds v.elem_size bounded) v.elem_size fuel
            (Valid.contents v) v h₁ h₂
            (λ n zs r holds. rw (sym (put_all-snoc (Valid.contents v) zs)) holds) same more reads
            less (valid, refl, refl),
      )
