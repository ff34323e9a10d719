-- ===== src/Iter/Terminal/Extreme.antt =====
-- The results of iter_min and iter_max: the first element that no other is before, or after.
use mathlib.Core.Bool.{true≢false}
use seqc.Prelude.{
  ℕ, ◌<◌, ◌≡◌, refl, ap, inl, inr, Bool, true, false, Option, none, some, List, [], ◌∷◌, ◌++◌,
  append_assoc, append-nil, length, Bool-cases, Allocator,
}
use Prim.Native.Nat.{Ordering}
use Prim.Native.Nat.Ordering.{lt, eq, gt}
use seqc.Order.{Compare, Ordering-cases, is_lt, is_gt}
use seqc.Order.Sorted.{All, All-imp}
use seqc.Iter.{Source, iter_destroy, Produces}
use seqc.Iter.Terminal.{
  scratch_acquire, scratch_release, finish, select, extreme_loop, extreme, iter_min, iter_max,
}
use seqc.Iter.Terminal.Result.{foldl, each_next-foldl}

-- `none` of the empty list, and else the first of the elements that no other comes before.
abbrev pub IsFirst {ℓ} : {A : Type ℓ} → (A → A → Bool) → List A → Option A → Type ℓ
IsFirst better xs none = xs ≡ []
IsFirst {A} better xs (some m) =
    (front : List A) × (back : List A) × (xs ≡ front ++ (m ∷ back))
    × All (λ x. better m x ≡ true) front
    × All (λ x. better x m ≡ false) back

-- What a comparison by `better` needs: `x` comes before what `m` comes before, and before what does
-- not come before `m`.
pub record Better {ℓ} {A : Type ℓ} (better : A → A → Bool) : Type ℓ where
  pub before : (x m y : A) → better x m ≡ true → better m y ≡ true → better x y ≡ true
  pub not_before : (x m y : A) → better x m ≡ true → better y m ≡ false → better x y ≡ true

All-append {ℓ κ} :
    {A : Type ℓ} (P : A → Type κ) (xs ys : List A) → All P xs → All P ys → All P (xs ++ ys)
All-append P [] ys p q = q
All-append P (x ∷ xs) ys p q = (p.0, All-append P xs ys p.1 q)

module _ {ℓ} {A : Type ℓ} (better : A → A → Bool) (laws : Better better) where
  foldl-select :
      (m : A) (front back xs : List A)
      → All (λ x. better m x ≡ true) front
      → All (λ x. better x m ≡ false) back
      → IsFirst better (front ++ (m ∷ (back ++ xs))) (foldl (select better) (some m) xs)
  unfolding select
  foldl-select m front back [] after no_better =
      (front, back, ap (λ r. front ++ (m ∷ r)) (append-nil back), after, no_better)
  foldl-select m front back (x ∷ xs) after no_better = elim (Bool-cases (better x m)) [
    | inl wins ↦
        let past : All (λ y. better x y ≡ true) (front ++ (m ∷ back)) =
          All-append (λ y. better x y ≡ true) front (m ∷ back)
            (All-imp (λ y e. laws.before x m y wins e) front after)
            (wins, All-imp (λ y e. laws.not_before x m y wins e) back no_better) in
        rw wins (
          rw (← append_assoc front (m ∷ back) (x ∷ xs))
            (foldl-select x (front ++ (m ∷ back)) [] xs past tt))
    | inr loses ↦ rw loses (
        rw (← append_assoc back (x ∷ []) xs) (
          foldl-select m front (back ++ (x ∷ [])) xs after
            (All-append (λ x. better x m ≡ false) back (x ∷ []) no_better (loses, tt))))
  ]

  pub foldl-IsFirst : (xs : List A) → IsFirst better xs (foldl (select better) none xs)
  unfolding select
  foldl-IsFirst [] = refl
  foldl-IsFirst (x ∷ xs) = foldl-select x [] [] xs tt tt

is_lt_lem : (r : Ordering) → is_lt r ≡ true → r ≡ lt
is_lt_lem lt e = refl
is_lt_lem eq e = cc
is_lt_lem gt e = cc

is_gt_lem : (r : Ordering) → is_gt r ≡ true → r ≡ gt
is_gt_lem lt e = cc
is_gt_lem eq e = cc
is_gt_lem gt e = refl

module _ {ℓ} {A : Type ℓ} ⦃o : Compare A⦄ where
  lt-Better : Better {A = A} (λ x y. is_lt (o.cmp x y))
  lt-Better = record {
    before =
        λ x m y p q. rw (o.lt_trans x m y (is_lt_lem (o.cmp x m) p) (is_lt_lem (o.cmp m y) q)) refl;
    not_before = λ x m y p q.
        let first = is_lt_lem (o.cmp x m) p in
        elim (Ordering-cases (o.cmp y m)) [
          | inl e ↦ absurd (true≢false (rw e at q))
          | inr (inl e) ↦ rw (o.lt_eq x m y first (o.eq_symm y m e)) refl
          | inr (inr e) ↦ rw (o.lt_trans x m y first (o.lt_of_gt y m e)) refl
        ];
  }

  gt-Better : Better {A = A} (λ x y. is_gt (o.cmp x y))
  gt-Better = record {
    before = λ x m y p q.
        let later = o.lt_of_gt x m (is_gt_lem (o.cmp x m) p) in
        rw (o.gt_of_lt y x (o.lt_trans y m x (o.lt_of_gt m y (is_gt_lem (o.cmp m y) q)) later))
          refl;
    not_before = λ x m y p q.
        let later = o.lt_of_gt x m (is_gt_lem (o.cmp x m) p) in
        elim (Ordering-cases (o.cmp y m)) [
          | inl e ↦ rw (o.gt_of_lt y x (o.lt_trans y m x e later)) refl
          | inr (inl e) ↦ rw (o.gt_of_lt y x (o.eq_lt y m x e later)) refl
          | inr (inr e) ↦ absurd (true≢false (rw e at q))
        ];
  }

module _ {ℓ κ μ} {A : Type ℓ} {S : Type κ} {H : Type μ} ⦃al : Allocator H⦄
    (src : Source A S H) where
  extreme-foldl :
      (better : A → A → Bool) (fuel : ℕ) {s s' : S} (h h₁ : H) {h₂ h' : H} {xs : List A}
      → scratch_acquire src.elem_size h ≡ some h₁
      → scratch_acquire src.elem_size h₁ ≡ some h₂
      → Produces src s h₂ xs s' h'
      → length xs < fuel
      → extreme src better fuel (some s) h
        ≡ some (
          foldl (select better) none xs,
          scratch_release src.elem_size (scratch_release src.elem_size (src.destroy s' h')),
        )
  unfolding extreme extreme_loop iter_destroy finish
  extreme-foldl better fuel h h₁ one two p less =
      rw (one, extreme, two, extreme_loop, each_next-foldl src (select better) fuel none p less)
        refl

module _ {ℓ κ μ} {A : Type ℓ} {S : Type κ} {H : Type μ} ⦃al : Allocator H⦄ ⦃o : Compare A⦄
    (src : Source A S H) where
  -- Where both scratch buffers are got, of a source that yields some elements, with more rounds
  -- than there are, iter_min returns the first element that no other comes before and iter_max the
  -- first that no other comes after, and none if there are none; each has destroyed the source and
  -- released its buffers.
  pub terminal_extremes :
      (fuel : ℕ) {s s' : S} (h h₁ : H) {h₂ h' : H} {xs : List A}
      → scratch_acquire src.elem_size h ≡ some h₁
      → scratch_acquire src.elem_size h₁ ≡ some h₂
      → Produces src s h₂ xs s' h'
      → length xs < fuel
      → (let after =
            scratch_release src.elem_size (scratch_release src.elem_size (src.destroy s' h')) in
          ((m : Option A) × (iter_min src o.cmp fuel (some s) h ≡ some (m, after))
            × IsFirst (λ x y. is_lt (o.cmp x y)) xs m)
          × ((m : Option A) × (iter_max src o.cmp fuel (some s) h ≡ some (m, after))
              × IsFirst (λ x y. is_gt (o.cmp x y)) xs m))
  unfolding iter_min iter_max
  terminal_extremes fuel h h₁ {xs = xs} one two p less = (
    (
      _,
      extreme-foldl src (λ x y. is_lt (o.cmp x y)) fuel h h₁ one two p less,
      foldl-IsFirst _ lt-Better xs,
    ),
    (
      _,
      extreme-foldl src (λ x y. is_gt (o.cmp x y)) fuel h h₁ one two p less,
      foldl-IsFirst _ gt-Better xs,
    ),
  )
