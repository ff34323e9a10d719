-- ===== src/Iter/Select.antt =====
-- The adaptors of src/iter/iter.c that leave elements out anywhere: iter_filter and iter_dedup.
use seqc.Prelude.{
  ℕ, suc, ◌+◌, ◌<◌, ◌≡◌, refl, sym, ap, inl, inr, Bool, true, not, Option, none, some, List, [],
  ◌∷◌, if◌then◌else◌, length, Bool-cases, Allocator,
}
use seqc.Iter.Sift.{sift, sifted, sift-Produces}
use seqc.Iter.{Next, Source, sizeof_iter, Produces}

-- `filter_state_t`; the predicate is an argument of the functions.
pub record Filter {ℓ} (S : Type ℓ) : Type ℓ where
  pub source : S

-- `dedup_state_t`: `last` is the element in `last_buf` if `has_last`.
pub record Dedup {ℓ κ} (A : Type ℓ) (S : Type κ) : Type (ℓ ⊔ κ) where
  pub source : S
  pub last : Option A

-- `!s->has_last || s->cmp(out, s->last_buf) != 0`; `same` is the comparison against 0.
abbrev pub is_new {ℓ} : {A : Type ℓ} → (A → A → Bool) → Option A → A → Bool
is_new same none x = true
is_new same (some y) x = not (same x y)

module _ {ℓ κ μ} {A : Type ℓ} {S : Type κ} {H : Type μ} ⦃al : Allocator H⦄
    (src : Source A S H) where
  -- `fuel` bounds the rounds of the loop, here and in `dedup_next`.
  pub filter_next : (A → Bool) → ℕ → Filter S → H → Next A (Filter S) H
  filter_next pred fuel s h =
      sift src (λ (u : Unit {0}) t. record { source = t }) (λ (u : Unit {0}) x. pred x)
        (λ (u : Unit {0}) x. tt) fuel tt s.source h

  abbrev pub sizeof_filter : ℕ → ℕ
  sizeof_filter handle = sizeof_iter handle + 16

  unfoldable pub filter_drop : Filter S → H → H
  filter_drop s h = al.free (sizeof_filter al.handle_size) (src.destroy s.source h)

  unfoldable pub filter_source : (A → Bool) → ℕ → Source A (Filter S) H
  unfolding filter_next filter_drop
  filter_source pred fuel = record {
    next = filter_next pred fuel;
    destroy = filter_drop;
    elem_size = src.elem_size;
  }

  pub dedup_next : (A → A → Bool) → ℕ → Dedup A S → H → Next A (Dedup A S) H
  dedup_next same fuel s h =
      sift src (λ last t. record { source = t; last = last }) (is_new same) (λ last x. some x) fuel
        s.last s.source h

  abbrev pub sizeof_dedup : ℕ → ℕ
  sizeof_dedup handle = sizeof_iter handle + 24

  unfoldable pub dedup_drop : Dedup A S → H → H
  dedup_drop s h =
      al.free (sizeof_dedup al.handle_size) (al.free src.elem_size (src.destroy s.source h))

  unfoldable pub dedup_source : (A → A → Bool) → ℕ → Source A (Dedup A S) H
  unfolding dedup_next dedup_drop
  dedup_source same fuel = record {
    next = dedup_next same fuel;
    destroy = dedup_drop;
    elem_size = src.elem_size;
  }

-- Every element that is equal to the one before it is left out.
abbrev pub runs_from {ℓ} : {A : Type ℓ} → (A → A → Bool) → A → List A → List A
runs_from same y [] = []
runs_from same y (x ∷ xs) = if same x y then runs_from same y xs else x ∷ runs_from same x xs

abbrev pub runs {ℓ} : {A : Type ℓ} → (A → A → Bool) → List A → List A
runs same [] = []
runs same (x ∷ xs) = x ∷ runs_from same x xs

-- The elements on which the test holds.
abbrev pub filter {ℓ} : {A : Type ℓ} → (A → Bool) → List A → List A
filter pred [] = []
filter pred (x ∷ xs) = if pred x then x ∷ filter pred xs else filter pred xs

module _ {ℓ} {A : Type ℓ} where
  sifted-filter :
      (pred : A → Bool) (xs : List A)
      → sifted (λ (u : Unit {0}) x. pred x) (λ (u : Unit {0}) x. tt) tt xs ≡ filter pred xs
  sifted-filter pred [] = refl
  sifted-filter pred (x ∷ xs) = elim (Bool-cases (pred x)) [
    | inl holds ↦ rw holds (ap (λ r. x ∷ r) (sifted-filter pred xs))
    | inr fails ↦ rw fails (sifted-filter pred xs)
  ]

  sifted-runs :
      (same : A → A → Bool) (y : A) (xs : List A)
      → sifted (is_new same) (λ last x. some x) (some y) xs ≡ runs_from same y xs
  sifted-runs same y [] = refl
  sifted-runs same y (x ∷ xs) = elim (Bool-cases (same x y)) [
    | inl eq ↦ rw eq (sifted-runs same y xs)
    | inr ne ↦ rw ne (ap (λ r. x ∷ r) (sifted-runs same x xs))
  ]

  sifted-dedup :
      (same : A → A → Bool) (xs : List A)
      → sifted (is_new same) (λ last x. some x) none xs ≡ runs same xs
  sifted-dedup same [] = refl
  sifted-dedup same (x ∷ xs) = ap (λ r. x ∷ r) (sifted-runs same x xs)

module _ {ℓ κ μ} {A : Type ℓ} {S : Type κ} {H : Type μ} ⦃al : Allocator H⦄
    {src : Source A S H} where
  pub filter-Produces :
      (pred : A → Bool) (fuel : ℕ) {s s' : S} {h h' : H} {xs : List A}
      → Produces src s h xs s' h'
      → length xs < suc fuel
      → Produces
          (filter_source src pred (suc fuel))
          (record { source = s })
          h
          (filter pred xs)
          (record { source = s' })
          h'
  unfolding filter_source filter_next
  filter-Produces pred fuel {xs = xs} p k =
      let (r, q) =
        sift-Produces src (λ (u : Unit {0}) t. record { source = t }) (λ (u : Unit {0}) x. pred x)
          (λ (u : Unit {0}) x. tt) fuel (filter_source src pred (suc fuel)) (λ t s h. refl) tt p
          k in
      rw (sym (sifted-filter pred xs)) q

  pub dedup-Produces :
      (same : A → A → Bool) (fuel : ℕ) {s s' : S} {h h' : H} {xs : List A}
      → Produces src s h xs s' h'
      → length xs < suc fuel
      → (r : Option A) × Produces
          (dedup_source src same (suc fuel))
          (record { source = s; last = none })
          h
          (runs same xs)
          (record { source = s'; last = r })
          h'
  unfolding dedup_source dedup_next
  dedup-Produces same fuel {xs = xs} p k =
      let (r, q) =
        sift-Produces src (λ last t. record { source = t; last = last }) (is_new same)
          (λ last x. some x) fuel (dedup_source src same (suc fuel)) (λ t s h. refl) none p k in
      (r, rw (sym (sifted-dedup same xs)) q)
