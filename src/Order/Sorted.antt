-- ===== src/Order/Sorted.antt =====
-- Strictly ascending lists as sets: what the search trees promise.
use Prim.Native.Nat.Ordering.{lt, eq, gt}
use seqc.Prelude.{
  suc, ◌≡◌, ◌≢◌, if◌then◌else◌, refl, ap, Bool, true, false, List, [], ◌∷◌, ◌++◌, arith, length,
  inl, inr,
}
use seqc.Order.{Compare, Ordering-cases}

abbrev pub All {ℓ κ} : {A : Type ℓ} → (A → Type κ) → List A → Type κ
All P [] = Unit
All P (x ∷ xs) = P x × All P xs

pub All-imp {ℓ κ μ} :
    {A : Type ℓ} {P : A → Type κ} {Q : A → Type μ}
    → ((x : A) → P x → Q x)
    → (xs : List A) → All P xs
    → All Q xs
All-imp f [] h = tt
All-imp f (x ∷ xs) h = (f x h.0, All-imp f xs h.1)

module _ {ℓ} {A : Type ℓ} ⦃o : Compare A⦄ where
  abbrev pub IsSorted : List A → Type 0
  IsSorted [] = Unit
  IsSorted (x ∷ xs) = All (λ y. o.cmp x y ≡ lt) xs × IsSorted xs

  -- The list with an element that compares equal to `x`.
  unfoldable pub add : A → List A → List A
  add x [] = x ∷ []
  add x (y ∷ ys) = elim (o.cmp x y) [ lt ↦ x ∷ (y ∷ ys) | eq ↦ y ∷ ys | gt ↦ y ∷ add x ys ]

  -- The list without the element that compares equal to `x`.
  unfoldable pub remove : A → List A → List A
  remove x [] = []
  remove x (y ∷ ys) = elim (o.cmp x y) [ lt ↦ y ∷ ys | eq ↦ ys | gt ↦ y ∷ remove x ys ]

  -- Some element compares equal to `x`.
  unfoldable pub member : A → List A → Bool
  member x [] = false
  member x (y ∷ ys) = elim (o.cmp x y) [ eq ↦ true | _ ↦ member x ys ]

  -- Everything in the list comes before `x`.
  abbrev pub Below : A → List A → Type 0
  Below x = All (λ y. o.cmp x y ≡ gt)

  beyond : (x y a : A) → o.cmp x y ≢ lt → o.cmp a y ≡ lt → o.cmp x a ≡ gt
  beyond x y a n h = elim (Ordering-cases (o.cmp x y)) [
    | inl e ↦ absurd (n e)
    | inr (inl e) ↦ o.gt_of_lt a x (o.lt_eq a y x h (o.eq_symm x y e))
    | inr (inr e) ↦ o.gt_of_lt a x (o.lt_trans a y x h (o.lt_of_gt x y e))
  ]

  sorted_left :
      (xs : List A) (y : A) (ys : List A) → IsSorted (xs ++ (y ∷ ys)) → All (λ a. o.cmp a y ≡ lt) xs
  sorted_left [] y ys s = tt
  sorted_left (x ∷ xs) y ys s = (head xs s.0, sorted_left xs y ys s.1)
    where
      head : (zs : List A) → All (λ a. o.cmp x a ≡ lt) (zs ++ (y ∷ ys)) → o.cmp x y ≡ lt
      head [] h = h.0
      head (z ∷ zs) h = head zs h.1

  -- What stands before an element at or below `x` stands below `x`.
  pub Below-prefix :
      (x : A) (xs : List A) (y : A) (ys : List A)
      → IsSorted (xs ++ (y ∷ ys))
      → o.cmp x y ≢ lt
      → Below x xs
  Below-prefix x xs y ys s n = All-imp (λ a h. beyond x y a n h) xs (sorted_left xs y ys s)

  pub add_before :
      (x : A) (xs : List A) (y : A) (ys : List A)
      → o.cmp x y ≡ lt
      → add x (xs ++ (y ∷ ys)) ≡ add x xs ++ (y ∷ ys)
  unfolding add
  add_before x [] y ys e = rw (e, add)
  add_before x (a ∷ xs) y ys e = ground (arith, add_before x xs y ys e)

  pub add_after : (x : A) (xs zs : List A) → Below x xs → add x (xs ++ zs) ≡ xs ++ add x zs
  unfolding add
  add_after x [] zs b = refl
  add_after x (a ∷ xs) zs b = rw (b.0, add) (ap (◌∷◌ a) (add_after x xs zs b.1))

  pub remove_before :
      (x : A) (xs : List A) (y : A) (ys : List A)
      → o.cmp x y ≡ lt
      → remove x (xs ++ (y ∷ ys)) ≡ remove x xs ++ (y ∷ ys)
  unfolding remove
  remove_before x [] y ys e = rw (e, remove)
  remove_before x (a ∷ xs) y ys e = ground (arith, remove_before x xs y ys e)

  pub remove_after : (x : A) (xs zs : List A) → Below x xs → remove x (xs ++ zs) ≡ xs ++ remove x zs
  unfolding remove
  remove_after x [] zs b = refl
  remove_after x (a ∷ xs) zs b = rw (b.0, remove) (ap (◌∷◌ a) (remove_after x xs zs b.1))

  pub member_after : (x : A) (xs zs : List A) → Below x xs → member x (xs ++ zs) ≡ member x zs
  unfolding member
  member_after x [] zs b = refl
  member_after x (a ∷ xs) zs b = rw (b.0, member) (member_after x xs zs b.1)

  pub IsSorted-left : (xs zs : List A) → IsSorted (xs ++ zs) → IsSorted xs
  IsSorted-left [] zs s = tt
  IsSorted-left (x ∷ xs) zs s = (All_left xs zs s.0, IsSorted-left xs zs s.1)
    where
      All_left :
          (ks bs : List A) → All (λ y. o.cmp x y ≡ lt) (ks ++ bs) → All (λ y. o.cmp x y ≡ lt) ks
      All_left [] bs h = tt
      All_left (a ∷ ks) bs h = (h.0, All_left ks bs h.1)

  pub IsSorted-right : (xs zs : List A) → IsSorted (xs ++ zs) → IsSorted zs
  IsSorted-right [] zs s = s
  IsSorted-right (x ∷ xs) zs s = IsSorted-right xs zs s.1

  -- An element below all of the list is not in it.
  member_above : (x : A) (ys : List A) → All (λ y. o.cmp x y ≡ lt) ys → member x ys ≡ false
  unfolding member
  member_above x [] h = refl
  member_above x (y ∷ ys) h = rw (h.0, member) (member_above x ys h.1)

  above :
      (x y : A) (ys : List A)
      → o.cmp x y ≡ lt
      → All (λ z. o.cmp y z ≡ lt) ys
      → All (λ z. o.cmp x z ≡ lt) ys
  above x y ys e = All-imp (λ z h. o.lt_trans x y z e h) ys

  pub member_before :
      (x : A) (xs : List A) (y : A) (ys : List A)
      → o.cmp x y ≡ lt
      → IsSorted (xs ++ (y ∷ ys))
      → member x (xs ++ (y ∷ ys)) ≡ member x xs
  unfolding member
  member_before x [] y ys e s = rw (e, member) (member_above x ys (above x y ys e s.0))
  member_before x (a ∷ xs) y ys e s = ground (arith, member_before x xs y ys e)

  All-add {κ} : (P : A → Type κ) (x : A) (xs : List A) → P x → All P xs → All P (add x xs)
  unfolding add
  All-add P x [] p h = (p, tt)
  All-add P x (y ∷ ys) p h = elim (Ordering-cases (o.cmp x y)) [
    | inl e ↦ rw (e, add) (p, h)
    | inr (inl e) ↦ rw (e, add) h
    | inr (inr e) ↦ rw (e, add) (h.0, All-add P x ys p h.1)
  ]

  All-remove {κ} : (P : A → Type κ) (x : A) (xs : List A) → All P xs → All P (remove x xs)
  unfolding remove
  All-remove P x [] h = tt
  All-remove P x (y ∷ ys) h = elim (Ordering-cases (o.cmp x y)) [
    | inl e ↦ rw (e, remove) h
    | inr (inl e) ↦ rw (e, remove) h.1
    | inr (inr e) ↦ rw (e, remove) (h.0, All-remove P x ys h.1)
  ]

  pub add-IsSorted : (x : A) (xs : List A) → IsSorted xs → IsSorted (add x xs)
  unfolding add
  add-IsSorted x [] s = (tt, tt)
  add-IsSorted x (y ∷ ys) s = elim (Ordering-cases (o.cmp x y)) [
    | inl e ↦ rw (e, add) ((e, above x y ys e s.0), s)
    | inr (inl e) ↦ rw (e, add) s
    | inr (inr e) ↦
        rw (e, add)
          (All-add (λ z. o.cmp y z ≡ lt) x ys (o.lt_of_gt x y e) s.0, add-IsSorted x ys s.1)
  ]

  pub remove-IsSorted : (x : A) (xs : List A) → IsSorted xs → IsSorted (remove x xs)
  unfolding remove
  remove-IsSorted x [] s = tt
  remove-IsSorted x (y ∷ ys) s = elim (Ordering-cases (o.cmp x y)) [
    | inl e ↦ rw (e, remove) s
    | inr (inl e) ↦ rw (e, remove) s.1
    | inr (inr e) ↦
        rw (e, remove) (All-remove (λ z. o.cmp y z ≡ lt) x ys s.0, remove-IsSorted x ys s.1)
  ]

  pub length-add :
      (x : A) (xs : List A)
      → IsSorted xs
      → length (add x xs) ≡ (if member x xs then length xs else suc (length xs))
  unfolding add member
  length-add x [] s = refl
  length-add x (y ∷ ys) s = elim (Ordering-cases (o.cmp x y)) [
    | inl e ↦ rw (e, add, member, member_above x ys (above x y ys e s.0))
    | inr (inl e) ↦ rw (e, add, member)
    | inr (inr e) ↦ rw (e, add, member) (ground (arith, length-add x ys s.1))
  ]

  pub length-remove :
      (x : A) (xs : List A)
      → IsSorted xs
      → length xs ≡ (if member x xs then suc (length (remove x xs)) else length (remove x xs))
  unfolding remove member
  length-remove x [] s = refl
  length-remove x (y ∷ ys) s = elim (Ordering-cases (o.cmp x y)) [
    | inl e ↦ rw (e, remove, member, member_above x ys (above x y ys e s.0))
    | inr (inl e) ↦ rw (e, remove, member)
    | inr (inr e) ↦ rw (e, remove, member) (ground (arith, length-remove x ys s.1))
  ]

  pub remove_absent : (x : A) (xs : List A) → member x xs ≡ false → remove x xs ≡ xs
  unfolding remove member
  remove_absent x [] h = refl
  remove_absent x (y ∷ ys) h = ground (arith, remove_absent x ys)

  pub add_present : (x : A) (xs : List A) → IsSorted xs → member x xs ≡ true → add x xs ≡ xs
  unfolding add member
  add_present x [] s h = cc
  add_present x (y ∷ ys) s h = elim (Ordering-cases (o.cmp x y)) [
    | inl e ↦ absurd (cc (member_above x ys (above x y ys e s.0), rw (e, member) at h))
    | inr (inl e) ↦ rw (e, add)
    | inr (inr e) ↦ rw (e, add) (ap (◌∷◌ y) (add_present x ys s.1 (rw (e, member) at h)))
  ]
