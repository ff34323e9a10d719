-- ===== src/Iter/Sift.antt =====
-- The loop that iter_filter, iter_skip_while and iter_dedup of src/iter/iter.c share: it calls its
-- source until an element passes the adaptor's test or the source ends.
use seqc.Prelude.{
  ℕ, zero, suc, ◌<◌, ◌≡◌, ◌∙◌, inl, inr, Bool, true, false, if◌then◌else◌, List, [], ◌∷◌, length,
  sym, Bool-cases, arith,
}
use seqc.Iter.{Next, got, out_of_fuel, Source, on_got, Produces, ends, gives}

module _ {ℓ κ μ ν ξ} {A : Type ℓ} {S : Type κ} {H : Type μ} {T : Type ν} {R : Type ξ}
    (src : Source A S H) (keep : T → S → R) (accept : T → A → Bool) (after : T → A → T) where
  -- `while (iter_next(&s->source, out)) if (accept) { update; return true; } return false;`, where
  -- `t` is what the adaptor keeps beside its source.
  pub sift : ℕ → T → S → H → Next A R H
  sift zero t s h = out_of_fuel
  sift (suc fuel) t s h = on_got (src.next s h) (keep t) (λ x s' h'. elim (accept t x) [
    | true ↦ got x (keep (after t x) s') h'
    | false ↦ sift fuel t s' h'
  ])

-- The elements that pass.
abbrev pub sifted {ℓ ν} :
    {A : Type ℓ} {T : Type ν} → (T → A → Bool) → (T → A → T) → T → List A → List A
sifted accept after t [] = []
sifted accept after t (x ∷ xs) =
    if accept t x then x ∷ sifted accept after (after t x) xs else sifted accept after t xs

-- What a state produces depends on its next call.
pub Produces-moved {ℓ κ μ} :
    {A : Type ℓ} {S : Type κ} {H : Type μ} (out : Source A S H) {r₁ r₂ r' : S} {h₁ h₂ h' : H}
    {xs : List A}
    → out.next r₁ h₁ ≡ out.next r₂ h₂
    → Produces out r₂ h₂ xs r' h'
    → Produces out r₁ h₁ xs r' h'
Produces-moved out eq (ends e) = ends (eq ∙ e)
Produces-moved out eq (gives e p) = gives (eq ∙ e) p

module _ {ℓ κ μ ν ξ} {A : Type ℓ} {S : Type κ} {H : Type μ} {T : Type ν} {R : Type ξ}
    (src : Source A S H) (keep : T → S → R) (accept : T → A → Bool) (after : T → A → T) where
  -- Fuel for one round more than there are elements is enough.
  sift-more :
      (fuel : ℕ) (t : T) {s s' : S} {h h' : H} {xs : List A}
      → Produces src s h xs s' h'
      → length xs < fuel
      → sift src keep accept after (suc fuel) t s h ≡ sift src keep accept after fuel t s h
  unfolding sift
  sift-more zero t (ends e) k = absurd (omega arith)
  sift-more zero t (gives e p) k = absurd (omega arith)
  sift-more (suc n) t (ends e) k = rw e
  sift-more (suc n) t (gives {x = x} e p) k = elim (Bool-cases (accept t x)) [
    | inl keeps ↦ rw (e, keeps)
    | inr drops ↦ rw (e, drops) (sift-more n t p (omega arith))
  ]

  -- `out` is the adaptor.
  pub sift-Produces :
      (fuel : ℕ) (out : Source A R H)
      → ((t : T) (s : S) (h : H)
          → out.next (keep t s) h ≡ sift src keep accept after (suc fuel) t s h)
      → (t : T) {s s' : S} {h h' : H} {xs : List A} → Produces src s h xs s' h'
      → length xs < suc fuel
      → (r : T) × Produces out (keep t s) h (sifted accept after t xs) (keep r s') h'
  unfolding sift
  sift-Produces fuel out step t {s} {h = h} (ends e) k = (t, ends (rw (step t s h, e)))
  sift-Produces fuel out step t {s} {s'} {h} {h'} (gives {s₁ = s₁} {h₁ = h₁} {x = x} {xs = xs} e p)
        k =
      elim (Bool-cases (accept t x)) [
        | inl keeps ↦
            let (r, q) = sift-Produces fuel out step (after t x) p (omega arith) in
            rw keeps (r, gives (rw (step t s h, e, keeps)) q)
        | inr drops ↦
            let (r, q) = sift-Produces fuel out step t p (omega arith) in
            let over : out.next (keep t s) h ≡ out.next (keep t s₁) h₁ =
              rw (step t s h, e, drops, step t s₁ h₁) (sym (sift-more fuel t p (omega arith))) in
            rw drops (r, Produces-moved out over q)
      ]
