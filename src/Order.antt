-- ===== src/Order.antt =====
-- `compare_fn` of include/seqc/iter.h, which the client writes: the sign of the `int` that it
-- returns, and the laws of the order that it stands for. Elements that compare equal need not be
-- the same.
pub mod Sorted
pub mod Sets
pub mod Bags
pub mod Cuts
use Prim.Native.Nat.{Ordering}
use Prim.Native.Nat.Ordering.{lt, eq, gt}
use seqc.Prelude.{ℕ, ◌≡◌, refl, sym, ◌∙◌, ◌⊎◌, inl, inr, Bool, true, false}

pub record IsOrder {ℓ} {A : Type ℓ} (cmp : A → A → Ordering) : Type ℓ where
  pub cmp_refl : (a : A) → cmp a a ≡ eq
  pub gt_of_lt : (a b : A) → cmp a b ≡ lt → cmp b a ≡ gt
  pub lt_of_gt : (a b : A) → cmp a b ≡ gt → cmp b a ≡ lt
  pub eq_symm : (a b : A) → cmp a b ≡ eq → cmp b a ≡ eq
  pub lt_trans : (a b c : A) → cmp a b ≡ lt → cmp b c ≡ lt → cmp a c ≡ lt
  pub lt_eq : (a b c : A) → cmp a b ≡ lt → cmp b c ≡ eq → cmp a c ≡ lt
  pub eq_lt : (a b c : A) → cmp a b ≡ eq → cmp b c ≡ lt → cmp a c ≡ lt

pub record Compare {ℓ} (A : Type ℓ) : Type ℓ where
  pub cmp : A → A → Ordering
  pub order : IsOrder cmp
  pub open order use *

pub Ordering-cases : (o : Ordering) → (o ≡ lt) ⊎ (o ≡ eq) ⊎ (o ≡ gt)
Ordering-cases lt = inl refl
Ordering-cases eq = inr (inl refl)
Ordering-cases gt = inr (inr refl)

-- `cmp(a, b) < 0` and `cmp(a, b) > 0`.
abbrev pub is_lt : Ordering → Bool
is_lt lt = true
is_lt eq = false
is_lt gt = false

abbrev pub is_gt : Ordering → Bool
is_gt lt = false
is_gt eq = false
is_gt gt = true

abbrev pub is_eq : Ordering → Bool
is_eq lt = false
is_eq eq = true
is_eq gt = false

-- `a` does not come after `b`.
abbrev pub Le {ℓ} : {A : Type ℓ} ⦃o : Compare A⦄ → A → A → Type 0
Le ⦃o⦄ a b = is_lt (o.cmp b a) ≡ false

module _ {ℓ} {A : Type ℓ} ⦃o : Compare A⦄ where
  pub Le-refl : (a : A) → Le a a
  Le-refl a = rw (o.cmp_refl a)

  pub Le_of_lt : (a b : A) → is_lt (o.cmp a b) ≡ true → Le a b
  Le_of_lt a b h = elim (Ordering-cases (o.cmp a b)) [
    | inl e ↦ rw (o.gt_of_lt a b e)
    | inr (inl e) ↦ absurd (cc (rw e at h))
    | inr (inr e) ↦ absurd (cc (rw e at h))
  ]

  pub Le-trans : (a b c : A) → Le a b → Le b c → Le a c
  Le-trans a b c p q = elim (Ordering-cases (o.cmp c a)) [
    | inr (inl e) ↦ rw e
    | inr (inr e) ↦ rw e
    | inl e ↦ elim (Ordering-cases (o.cmp b a)) [
      | inl lower ↦ absurd (cc (rw lower at p))
      | inr (inl same) ↦ absurd (cc (rw (o.lt_eq c a b e (o.eq_symm b a same)) at q))
      | inr (inr above) ↦ absurd (cc (rw (o.lt_trans c a b e (o.lt_of_gt b a above)) at q))
    ]
  ]

  pub is_lt_trans :
      (a b c : A) → is_lt (o.cmp a b) ≡ true → is_lt (o.cmp b c) ≡ true → is_lt (o.cmp a c) ≡ true
  is_lt_trans a b c h k = elim (Ordering-cases (o.cmp a b)) [
    | inr (inl e) ↦ absurd (cc (rw e at h))
    | inr (inr e) ↦ absurd (cc (rw e at h))
    | inl e ↦ elim (Ordering-cases (o.cmp b c)) [
      | inr (inl f) ↦ absurd (cc (rw f at k))
      | inr (inr f) ↦ absurd (cc (rw f at k))
      | inl f ↦ rw (o.lt_trans a b c e f)
    ]
  ]

  pub eq_trans : (a b c : A) → o.cmp a b ≡ eq → o.cmp b c ≡ eq → o.cmp a c ≡ eq
  eq_trans a b c p q = elim (Ordering-cases (o.cmp a c)) [
    | inl e ↦ absurd (cc (sym (o.lt_eq a c b e (o.eq_symm b c q)) ∙ p))
    | inr (inl e) ↦ e
    | inr (inr e) ↦ absurd (cc (sym (o.lt_eq c a b (o.lt_of_gt a c e) p) ∙ o.eq_symm b c q))
  ]
