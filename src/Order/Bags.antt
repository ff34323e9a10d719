-- ===== src/Order/Bags.antt =====
-- Properties of all elements of a list, which do not depend on the order.
use native.Mathlib.Nat.{ℕ_set}
use mathlib.Core.List.{Perm, Permᴰ}
use mathlib.Core.Logic.{∥∥₁_elim}
use seqc.Prelude.{ℕ, suc, ◌<◌, List, [], ◌∷◌, length, get_or, ◌≡◌, refl, sym, ◌∙◌, arith}
use seqc.Order.{Compare, Le}
use seqc.Order.Sorted.{All}

module _ {ℓ κ} {A : Type ℓ} (P : A → Type κ) where
  pub All-get_or : (xs : List A) (d : A) → ((i : ℕ) → i < length xs → P (get_or xs i d)) → All P xs
  All-get_or [] d h = tt
  All-get_or (x ∷ xs) d h = (h 0 (omega arith), All-get_or xs d (λ i p. h (suc i) (omega arith)))

module _ {ℓ} {A : Type ℓ} ⦃o : Compare A⦄ where
  All-Le-prop : (a : A) (xs : List A) → IsProp (All (Le a) xs)
  All-Le-prop a [] = hlevel
  All-Le-prop a (x ∷ xs) = hlevel (All-Le-prop a xs)

  All-Permᴰ : (a : A) {xs ys : List A} → Permᴰ xs ys → All (Le a) xs → All (Le a) ys
  All-Permᴰ a Permᴰ.nil h = tt
  All-Permᴰ a (Permᴰ.cons e p) h = (rw (sym e) h.0, All-Permᴰ a p h.1)
  All-Permᴰ a (Permᴰ.swap e f) h = (rw (sym f) h.1.0, (rw (sym e) h.0, h.1.1))
  All-Permᴰ a (Permᴰ.trans p q) h = All-Permᴰ a q (All-Permᴰ a p h)

  -- What comes after none of some elements comes after none of them in another order.
  pub All-perm : (a : A) {xs ys : List A} → Perm xs ys → All (Le a) xs → All (Le a) ys
  All-perm a {xs} {ys} p h = ∥∥₁_elim p (All-Le-prop a ys) (λ d. All-Permᴰ a d h)

module _ {ℓ} {A : Type ℓ} where
  -- A derivation of a permutation moves elements and makes or drops none.
  steps-count : {a b : List A} → Permᴰ a b → length a ≡ length b
  steps-count (Permᴰ.trans d e) = steps-count d ∙ steps-count e
  steps-count (Permᴰ.cons eq d) = let rest = steps-count d in omega (arith, rest)
  steps-count (Permᴰ.swap eq eq') = refl
  steps-count Permᴰ.nil = refl

  -- Two lists with the same elements have as many of them.
  pub length-perm : {xs ys : List A} → Perm xs ys → length xs ≡ length ys
  length-perm {xs} {ys} p = ∥∥₁_elim p (ℕ_set (length xs) (length ys)) steps-count
