-- ===== src/Order/Cuts.antt =====
-- Lists that a test cuts in two: what it holds of stands behind what it does not hold of.
use seqc.Prelude.{
  ◌≡◌, refl, sym, ap, inl, inr, ◌≤◌, length, Bool, true, false, not, if◌then◌else◌, Bool-cases,
  List, [], ◌∷◌, ◌++◌, arith,
}
use seqc.Order.Sorted.{All, All-imp}

module _ {ℓ} {A : Type ℓ} where
  -- The elements that a test holds of.
  unfoldable pub keep : (A → Bool) → List A → List A
  keep p [] = []
  keep p (x ∷ xs) = if p x then x ∷ keep p xs else keep p xs

  pub keep-append : (p : A → Bool) (xs ys : List A) → keep p (xs ++ ys) ≡ keep p xs ++ keep p ys
  unfolding keep
  keep-append p [] ys = refl
  keep-append p (x ∷ xs) ys = elim (Bool-cases (p x)) [
    | inl e ↦ rw (e, keep) (ap (◌∷◌ x) (keep-append p xs ys))
    | inr e ↦ rw (e, keep) (keep-append p xs ys)
  ]

  pub keep_all : (p : A → Bool) (xs : List A) → All (λ x. p x ≡ true) xs → keep p xs ≡ xs
  unfolding keep
  keep_all p [] h = refl
  keep_all p (x ∷ xs) h = rw (h.0, keep) (ap (◌∷◌ x) (keep_all p xs h.1))

  pub keep_none : (p : A → Bool) (xs : List A) → All (λ x. p x ≡ false) xs → keep p xs ≡ []
  unfolding keep
  keep_none p [] h = refl
  keep_none p (x ∷ xs) h = rw (h.0, keep) (keep_none p xs h.1)

  All-left : (P : A → Type 0) (xs ys : List A) → All P (xs ++ ys) → All P xs
  All-left P [] ys h = tt
  All-left P (x ∷ xs) ys h = (h.0, All-left P xs ys h.1)

  All-at : (P : A → Type 0) (xs : List A) (x : A) (ys : List A) → All P (xs ++ (x ∷ ys)) → P x
  All-at P [] x ys h = h.0
  All-at P (z ∷ xs) x ys h = All-at P xs x ys h.1

  -- Where the test holds of an element, it holds of all behind it.
  abbrev pub IsCut : (A → Bool) → List A → Type ℓ
  IsCut p [] = Unit
  IsCut p (x ∷ xs) = ((p x ≡ true) → All (λ y. p y ≡ true) xs) × IsCut p xs

  pub IsCut-left : (p : A → Bool) (xs ys : List A) → IsCut p (xs ++ ys) → IsCut p xs
  IsCut-left p [] ys c = tt
  IsCut-left p (x ∷ xs) ys c =
      (λ e. All-left (λ y. p y ≡ true) xs ys (c.0 e), IsCut-left p xs ys c.1)

  pub IsCut-right : (p : A → Bool) (xs ys : List A) → IsCut p (xs ++ ys) → IsCut p ys
  IsCut-right p [] ys c = c
  IsCut-right p (x ∷ xs) ys c = IsCut-right p xs ys c.1

  -- In front of an element that the test does not hold of, it holds of none.
  pub IsCut-front :
      (p : A → Bool) (xs : List A) (x : A) (ys : List A)
      → IsCut p (xs ++ (x ∷ ys))
      → p x ≡ false
      → All (λ y. p y ≡ false) xs
  IsCut-front p [] x ys c e = tt
  IsCut-front p (z ∷ xs) x ys c e = elim (Bool-cases (p z)) [
    | inr f ↦ (f, IsCut-front p xs x ys c.1 e)
    | inl f ↦ absurd (cc (All-at (λ y. p y ≡ true) xs x ys (c.0 f), e))
  ]

  -- The elements in front of the first that the test holds of.
  unfoldable pub until : (A → Bool) → List A → List A
  until p [] = []
  until p (x ∷ xs) = if p x then [] else x ∷ until p xs

  pub until-keep : (p : A → Bool) (xs : List A) → IsCut p xs → until p xs ≡ keep (λ x. not (p x)) xs
  unfolding until keep
  until-keep p [] c = refl
  until-keep p (x ∷ xs) c = elim (Bool-cases (p x)) [
    | inl e ↦
        rw (e, until, keep)
          (sym (keep_none (λ y. not (p y)) xs (All-imp (λ y f. ap not f) xs (c.0 e))))
    | inr e ↦ rw (e, until, keep) (ap (◌∷◌ x) (until-keep p xs c.1))
  ]

module _ {ℓ} {A : Type ℓ} where
  All-keep : (P : A → Type 0) (q : A → Bool) (xs : List A) → All P xs → All P (keep q xs)
  unfolding keep
  All-keep P q [] h = tt
  All-keep P q (x ∷ xs) h = elim (Bool-cases (q x)) [
    | inl e ↦ rw (e, keep) (h.0, All-keep P q xs h.1)
    | inr e ↦ rw (e, keep) (All-keep P q xs h.1)
  ]

  pub IsCut-keep : (p q : A → Bool) (xs : List A) → IsCut p xs → IsCut p (keep q xs)
  unfolding keep
  IsCut-keep p q [] c = tt
  IsCut-keep p q (x ∷ xs) c = elim (Bool-cases (q x)) [
    | inl e ↦ rw (e, keep) (λ f. All-keep (λ y. p y ≡ true) q xs (c.0 f), IsCut-keep p q xs c.1)
    | inr e ↦ rw (e, keep) (IsCut-keep p q xs c.1)
  ]

  pub length-keep : (q : A → Bool) (xs : List A) → length (keep q xs) ≤ length xs
  unfolding keep
  length-keep q [] = omega arith
  length-keep q (x ∷ xs) = ground (arith, length-keep q xs)

-- What the lower end of a range allows.
abbrev pub allowed {ℓ} : {A : Type ℓ} → (A → Bool) → A → Bool
allowed below x = not (below x)
