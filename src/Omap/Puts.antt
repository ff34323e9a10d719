-- ===== src/Omap/Puts.antt =====
-- Ascending entries under a change, seen from an entry at the root of a tree.
use Prim.Native.Nat.Ordering.{lt, gt}
use seqc.Prelude.{suc, ◌≡◌, refl, ap, inl, inr, List, [], ◌∷◌, ◌++◌, length}
use seqc.Order.{Compare, Ordering-cases}
use seqc.Order.Sorted as Sorted
use seqc.Order.Sorted.{All, All-imp, Below}
use seqc.Omap.{Entry}
use seqc.Omap.Entries.{by_key, IsAscending, lookup, put, delete, absent}

module _ {ℓ κ} {K : Type ℓ} {V : Type κ} ⦃o : Compare K⦄ where
  pub put_before :
      (k : K) (v : V) (xs : List (Entry K V)) (e : Entry K V) (ys : List (Entry K V))
      → o.cmp k e.key ≡ lt
      → put k v (xs ++ (e ∷ ys)) ≡ put k v xs ++ (e ∷ ys)
  unfolding put
  put_before k v [] e ys c = rw (c, put)
  put_before k v (a ∷ xs) e ys c = elim (Ordering-cases (o.cmp k a.key)) [
    | inl d ↦ rw (d, put)
    | inr (inl d) ↦ rw (d, put)
    | inr (inr d) ↦ rw (d, put) (ap (◌∷◌ a) (put_before k v xs e ys c))
  ]

  -- All of the entries come before the key `k`.
  abbrev pub AllBelow : K → List (Entry K V) → Type 0
  AllBelow k xs = All (λ e. o.cmp k e.key ≡ gt) xs

  pub put_after :
      (k : K) (v : V) (xs zs : List (Entry K V))
      → AllBelow k xs
      → put k v (xs ++ zs) ≡ xs ++ put k v zs
  unfolding put
  put_after k v [] zs b = refl
  put_after k v (a ∷ xs) zs b = rw (b.0, put) (ap (◌∷◌ a) (put_after k v xs zs b.1))

  pub lookup_before :
      (k : K) (xs : List (Entry K V)) (e : Entry K V) (ys : List (Entry K V))
      → o.cmp k e.key ≡ lt
      → IsAscending (xs ++ (e ∷ ys))
      → lookup k (xs ++ (e ∷ ys)) ≡ lookup k xs
  unfolding lookup
  lookup_before k [] e ys c s =
      rw (c, lookup) (absent k ys (All-imp (λ d p. o.lt_trans k e.key d.key c p) ys s.0))
  lookup_before k (a ∷ xs) e ys c s = elim (Ordering-cases (o.cmp k a.key)) [
    | inl d ↦ rw (d, lookup) (lookup_before k xs e ys c s.1)
    | inr (inl d) ↦ rw (d, lookup)
    | inr (inr d) ↦ rw (d, lookup) (lookup_before k xs e ys c s.1)
  ]

  pub lookup_after :
      (k : K) (xs zs : List (Entry K V)) → AllBelow k xs → lookup k (xs ++ zs) ≡ lookup k zs
  unfolding lookup
  lookup_after k [] zs b = refl
  lookup_after k (a ∷ xs) zs b = rw (b.0, lookup) (lookup_after k xs zs b.1)

  -- `delete` and the removal of an entry with the key.
  pub delete_lem :
      (k : K) (v : V) (es : List (Entry K V))
      → delete k es ≡ Sorted.remove ⦃o = by_key V⦄ (record { key = k; value = v }) es
  unfolding delete Sorted.remove
  delete_lem k v [] = refl
  delete_lem k v (e ∷ es) = elim (Ordering-cases (o.cmp k e.key)) [
    | inl c ↦ rw (c, delete, Sorted.remove)
    | inr (inl c) ↦ rw (c, delete, Sorted.remove)
    | inr (inr c) ↦ rw (c, delete, Sorted.remove) (ap (◌∷◌ e) (delete_lem k v es))
  ]

  All-put :
      (P : K → Type 0) (k : K) (v : V) (es : List (Entry K V))
      → P k
      → All (λ e. P e.key) es
      → All (λ e. P e.key) (put k v es)
  unfolding put
  All-put P k v [] p h = (p, tt)
  All-put P k v (e ∷ es) p h = elim (Ordering-cases (o.cmp k e.key)) [
    | inl c ↦ rw (c, put) (p, h)
    | inr (inl c) ↦ rw (c, put) h
    | inr (inr c) ↦ rw (c, put) (h.0, All-put P k v es p h.1)
  ]

  pub put-IsAscending :
      (k : K) (v : V) (es : List (Entry K V)) → IsAscending es → IsAscending (put k v es)
  unfolding put
  put-IsAscending k v [] s = (tt, tt)
  put-IsAscending k v (e ∷ es) s = elim (Ordering-cases (o.cmp k e.key)) [
    | inl c ↦ rw (c, put) ((c, All-imp (λ d p. o.lt_trans k e.key d.key c p) es s.0), s)
    | inr (inl c) ↦ rw (c, put) s
    | inr (inr c) ↦
        rw (c, put)
          (
            All-put (λ j. o.cmp e.key j ≡ lt) k v es (o.lt_of_gt k e.key c) s.0,
            put-IsAscending k v es s.1,
          )
  ]

  -- A put makes the list as much longer as an insertion.
  pub length-put :
      (k : K) (v : V) (es : List (Entry K V))
      → length (put k v es) ≡ length (Sorted.add ⦃o = by_key V⦄ (record { key = k; value = v }) es)
  unfolding put Sorted.add
  length-put k v [] = refl
  length-put k v (e ∷ es) = elim (Ordering-cases (o.cmp k e.key)) [
    | inl c ↦ rw (c, put, Sorted.add)
    | inr (inl c) ↦ rw (c, put, Sorted.add)
    | inr (inr c) ↦ rw (c, put, Sorted.add) (ap suc (length-put k v es))
  ]
