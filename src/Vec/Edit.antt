-- ===== src/Vec/Edit.antt =====
-- The operations that change a vector in its block: vec_pop, vec_set, vec_remove, vec_truncate,
-- vec_clear.
use native.Mathlib.Numerals.{add-one}
use seqc.Prelude.{
  ℕ, suc, ◌+◌, ◌-◌, ◌≤◌, ◌<◌, ◌≡◌, refl, sym, ap, ◌∙◌, inl, inr, some, [], ◌∷◌, ◌++◌, append_assoc,
  arith, length, take, drop, set, length-set, length-take, length-drop, length-append, take-suc,
  take-set, set_past, drop_past, take_all, Bool-cases, leb→le, leb→lt, append-nil, take-take,
  drop-take, take-append_exact, ltb, leb, ◌==◌, Uninit, memmove, length-memmove, Takes,
}
use seqc.Vec.{Vec, pop, set_elem, remove, truncate, store, slot}
use seqc.Vec.Valid.{IsValid, contents, Holds}

module _ {ℓ} {A : Type ℓ} where
  -- A smaller count of elements keeps the invariant.
  pub shorten-IsValid : (v : Vec A) (n : ℕ) → IsValid v → n ≤ v.len → IsValid (record v { len = n })
  shorten-IsValid v n p h = record {
    slots = p.slots;
    filled = omega (arith, p.filled);
    sized = p.sized;
    narrow = p.narrow;
    small = p.small;
  }

  -- `vec_set` writes the element at `i`, and does nothing past the end.
  pub vec_set_lem :
      (v : Vec A) (i : ℕ) (x : A)
      → IsValid v
      → (w : Vec A) × (set_elem (some v) i (some x) ≡ some w)
        × Holds v.elem_size (set (contents v) i x) w
  unfolding set_elem store
  vec_set_lem v i x p = elim (Bool-cases (leb v.len i)) [
    | inl past ↦ (
      v,
      rw past,
      (
        p,
        sym (
            set_past (contents v) i x
              (omega (arith, length-take v.len v.buf, leb→le v.len i past))),
        refl,
      ),
    )
    | inr inside ↦ (
      store v i x,
      rw inside,
      (
        record {
          slots = length-set v.buf i x ∙ p.slots;
          filled = p.filled;
          sized = p.sized;
          narrow = p.narrow;
          small = p.small;
        },
        take-set v.len v.buf i x,
        refl,
      ),
    )
  ]

  -- vec_remove on a valid vector takes the i-th element out, does nothing past the end, and keeps
  -- the vector valid.
  pub vec_remove_lem :
      (v : Vec A) (i : ℕ)
      → IsValid v
      → (w : Vec A) × (remove (some v) i ≡ some w)
        × Holds v.elem_size (take i (contents v) ++ drop (suc i) (contents v)) w
  unfolding remove memmove
  vec_remove_lem v i p = elim (Bool-cases (leb v.len i)) [
    | inl past ↦
        let gone =
          drop_past (suc i) (contents v)
            (omega (arith, length-take v.len v.buf, leb→le v.len i past)) in
        let whole =
          take_all i (contents v) (omega (arith, length-take v.len v.buf, leb→le v.len i past)) in
        (v, rw past, (p, sym (rw (gone, whole) (append-nil (contents v))), refl))
    | inr inside ↦
        let below : i < v.len = leb→lt v.len i inside in
        let n = v.len - i - 1 in
        let rest = drop (i + n) v.buf in
        let front = take-take i v.len v.buf (omega arith) in
        let back = drop-take (suc i) v.len n v.buf (omega arith) in
        let joined = take i v.buf ++ take n (drop (suc i) v.buf) in
        let count : length joined ≡ v.len - 1 = omega (
          arith,
          length-append (take i v.buf) (take n (drop (suc i) v.buf)),
          length-take i v.buf,
          length-take n (drop (suc i) v.buf),
          length-drop (suc i) v.buf,
          p.slots,
          p.filled,
        ) in
        (
          record v { buf = memmove v.buf i (i + 1) n; len = v.len - 1 },
          rw inside,
          (
            record {
              slots =
                  length-memmove v.buf i (i + 1) n (omega (arith, p.slots)) (omega (arith, p.slots))
                  ∙ p.slots;
              filled = omega (arith, p.filled);
              sized = p.sized;
              narrow = p.narrow;
              small = p.small;
            },
            rw (front, back, memmove, add-one, ← append_assoc)
                (take-append_exact (v.len - 1) joined rest count),
            refl,
          ),
        )
  ]

  -- `vec_truncate` keeps the first `n` elements.
  pub vec_truncate_lem :
      (v : Vec A) (n : ℕ)
      → IsValid v
      → (w : Vec A) × (truncate (some v) n ≡ some w) × Holds v.elem_size (take n (contents v)) w
  unfolding truncate
  vec_truncate_lem v n p = elim (Bool-cases (ltb n v.len)) [
    | inl less ↦ (
      record v { len = n },
      rw less,
      (shorten-IsValid v n p (ground arith), sym (take-take n v.len v.buf (ground arith)), refl),
    )
    | inr all ↦ (
      v,
      rw all,
      (p, sym (take_all n (contents v) (ground (arith, length-take v.len v.buf))), refl),
    )
  ]

module _ {ℓ} {A : Type ℓ} ⦃u : Uninit A⦄ where
  -- vec_pop on a valid vector takes the last element off, hands it out and keeps the vector valid,
  -- or fails with all as it was because the vector is empty.
  pub vec_pop_lem :
      (v : Vec A)
      → IsValid v
      → Takes v
          (pop (some v))
          (contents v ≡ [])
          (λ x w. IsValid w × (contents v ≡ contents w ++ (x ∷ [])) × (w.elem_size ≡ v.elem_size))
  unfolding pop
  vec_pop_lem v p = elim (Bool-cases (v.len == 0)) [
    | inl e ↦ inl (rw e, ap (λ (n : ℕ). take n v.buf) (let z : v.len ≡ 0 = ground arith in z))
    | inr e ↦
        let n = v.len - 1 in
        let count : v.len ≡ suc n = ground arith in
        inr (
          slot v n,
          record v { len = n },
          rw e,
          (
            shorten-IsValid v n p (omega arith),
            ap (λ (k : ℕ). take k v.buf) count ∙ take-suc n v.buf u.junk (omega (arith, p.slots)),
            refl,
          ),
        )
  ]
