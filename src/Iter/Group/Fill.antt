-- ===== src/Iter/Group/Fill.antt =====
-- What the loop that fills a buffer leaves: as many elements of the source as there are slots, or
-- all of them.
use seqc.Prelude.{
  ℕ, zero, suc, ◌+◌, ◌≤◌, ◌<◌, ◌≡◌, refl, sym, ap, ◌∙◌, ◌⊎◌, inl, inr, List, [], ◌∷◌, ◌++◌,
  append_assoc, append-nil, length, take, drop, set, length-set, take-set_last, arith,
}
use seqc.Iter.{Source, Produces, ends, gives}
use seqc.Iter.Group.{Filling, full, short, fill_slots}

module _ {ℓ κ μ} {A : Type ℓ} {S : Type κ} {H : Type μ} (src : Source A S H) where
  -- The loop has written `k` elements behind the first `i`, and the source has the others left, or
  -- it has written all of `xs`, which are fewer.
  abbrev pub Fills : Filling A S H → ℕ → ℕ → List A → List A → S → H → Type (ℓ ⊔ κ ⊔ μ)
  Fills result i k buf xs s' h' =
      ((k ≤ length xs)
        × (buf' : List A) × (s₁ : S) × (h₁ : H) × (result ≡ full buf' s₁ h₁)
        × (take (i + k) buf' ≡ take i buf ++ take k xs)
        × (length buf' ≡ length buf)
        × Produces src s₁ h₁ (drop k xs) s' h')
      ⊎ ((length xs < k)
          × (buf' : List A) × (result ≡ short (i + length xs) buf' s' h')
          × (take (i + length xs) buf' ≡ take i buf ++ xs)
          × (length buf' ≡ length buf))

  pub fill_slots_lem :
      (k i : ℕ) (buf : List A) {s s' : S} {h h' : H} {xs : List A}
      → Produces src s h xs s' h'
      → i + k ≤ length buf
      → Fills (fill_slots src k i buf s h) i k buf xs s' h'
  unfolding fill_slots
  fill_slots_lem zero i buf {s} {s'} {h} {h'} p room = inl (
    omega arith,
    buf,
    s,
    h,
    refl,
    ap (λ n. take n buf) (omega arith) ∙ sym (append-nil (take i buf)),
    refl,
    p,
  )
  fill_slots_lem (suc k) i buf {s} {s'} {h} {h'} (ends e) room = inr (
    omega arith,
    buf,
    rw (e, fill_slots) (ap (λ n. short n buf s' h') (omega arith)),
    ap (λ n. take n buf) (omega arith) ∙ sym (append-nil (take i buf)),
    refl,
  )
  fill_slots_lem (suc k) i buf {s} {s'} {h} {h'} (gives {x = x} {xs = xs} e p) room =
      let kept = length-set buf i x in
      let shift = take-set_last i buf x (omega arith) in
      elim (fill_slots_lem k (suc i) (set buf i x) p (omega arith)) [
        | inl (enough, buf', s₁, h₁, result, front, slots, rest) ↦ inl (
          omega arith,
          buf',
          s₁,
          h₁,
          rw (e, fill_slots) result,
          ap (λ n. take n buf') (omega arith)
              ∙ front
              ∙ ap (λ r. r ++ take k xs) shift
              ∙ append_assoc (take i buf) (x ∷ []) (take k xs),
          slots ∙ kept,
          rest,
        )
        | inr (few, buf', result, front, slots) ↦ inr (
          omega arith,
          buf',
          rw (e, fill_slots) (result ∙ ap (λ n. short n buf' s' h') (omega arith)),
          ap (λ n. take n buf') (omega arith)
              ∙ front
              ∙ ap (λ r. r ++ xs) shift
              ∙ append_assoc (take i buf) (x ∷ []) xs,
          slots ∙ kept,
        )
      ]
