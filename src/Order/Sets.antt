-- ===== src/Order/Sets.antt =====
-- What the search trees need of ascending lists: an element at the root, and the count of elements.
use Prim.Native.Nat.Ordering.{eq}
use seqc.Prelude.{
  ℕ, ◌+◌, ◌-◌, ◌%◌, ◌≤◌, ◌<◌, ◌≡◌, sym, ap, ◌∙◌, Bool, true, not, inl, inr, arith, if◌then◌else◌,
  Bool-cases, List, [], ◌∷◌, ◌++◌, length, size_mod, Option, none, some, refl,
}
use seqc.Order.{Compare}
use seqc.Order.Sorted.{
  IsSorted, add, remove, member, Below-prefix, remove_after, member_after, length-add,
  length-remove,
}

module _ {ℓ} {A : Type ℓ} ⦃o : Compare A⦄ where
  -- Taking the element at the root out of an ascending list.
  pub remove_root :
      (x : A) (xs : List A) (y : A) (ys : List A)
      → IsSorted (xs ++ (y ∷ ys))
      → o.cmp x y ≡ eq
      → (remove x (xs ++ (y ∷ ys)) ≡ xs ++ ys) × (member x (xs ++ (y ∷ ys)) ≡ true)
  unfolding remove member
  remove_root x xs y ys s e =
      let below = Below-prefix x xs y ys s (λ f. cc (sym e ∙ f)) in
      let out : remove x (y ∷ ys) ≡ ys = rw (e, remove) in
      let found : member x (y ∷ ys) ≡ true = rw (e, member) in
      (
        remove_after x xs (y ∷ ys) below ∙ ap (λ (zs : List A). xs ++ zs) out,
        member_after x xs (y ∷ ys) below ∙ found,
      )

  -- The new `len` after a removal.
  pub taken_length :
      (x : A) (xs : List A) (n : ℕ) (b : Bool)
      → IsSorted xs
      → n ≡ length xs
      → b ≡ member x xs
      → ((if b then n - 1 else n) ≡ length (remove x xs)) × ((if b then n - 1 else n) ≤ n)
  taken_length x xs n b s e f = elim (Bool-cases (member x xs)) [
    | inl m ↦ let c = rw m at (length-remove x xs s) in rw (f, m) (omega arith, omega arith)
    | inr m ↦ let c = rw m at (length-remove x xs s) in rw (f, m) (omega arith, omega arith)
  ]

  -- The new `len` after an insertion.
  pub added_length :
      (x : A) (xs : List A) (n : ℕ) (b : Bool)
      → n + 1 < size_mod
      → IsSorted xs
      → n ≡ length xs
      → b ≡ not (member x xs)
      → ((if b then (n + 1) % size_mod else n) ≡ length (add x xs))
        × ((if b then (n + 1) % size_mod else n) < size_mod)
  added_length x xs n b room s e f = elim (Bool-cases (member x xs)) [
    | inl m ↦ let c = rw m at (length-add x xs s) in rw (f, m) (omega arith, omega arith)
    | inr m ↦ let c = rw m at (length-add x xs s) in rw (f, m) (omega arith, omega arith)
  ]

module _ {ℓ} {A : Type ℓ} where
  -- The last element of a list, if it has one.
  unfoldable pub last : List A → Option A
  last [] = none
  last (x ∷ xs) = elim xs [ [] ↦ some x | _ ∷ _ ↦ last xs ]

  unfoldable pub head : List A → Option A
  head [] = none
  head (x ∷ xs) = some x

  pub last_append : (xs : List A) (y : A) (ys : List A) → last (xs ++ (y ∷ ys)) ≡ last (y ∷ ys)
  unfolding last
  last_append [] y ys = refl
  last_append (x ∷ []) y ys = refl
  last_append (x ∷ (z ∷ zs)) y ys = last_append (z ∷ zs) y ys
