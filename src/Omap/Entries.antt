-- ===== src/Omap/Entries.antt =====
-- What src/omap/omap.c promises: a list of entries with strictly ascending keys, as a map.
use Prim.Native.Nat.Ordering.{lt, eq, gt}
use seqc.Prelude.{◌≡◌, refl, if◌then◌else◌, inl, inr, Option, none, some, List, [], ◌∷◌}
use seqc.Order.{Compare, Ordering-cases, is_eq, eq_trans}
use seqc.Order.Sorted.{All, All-imp, IsSorted}
use seqc.Omap.{Entry}

-- Entries under the order of their keys.
abbrev pub by_key {ℓ κ} : {K : Type ℓ} (V : Type κ) ⦃o : Compare K⦄ → Compare (Entry K V)
by_key V ⦃o⦄ = record {
  cmp = λ a b. o.cmp a.key b.key;
  order = record {
    cmp_refl = λ a. o.cmp_refl a.key;
    gt_of_lt = λ a b. o.gt_of_lt a.key b.key;
    lt_of_gt = λ a b. o.lt_of_gt a.key b.key;
    eq_symm = λ a b. o.eq_symm a.key b.key;
    lt_trans = λ a b c. o.lt_trans a.key b.key c.key;
    lt_eq = λ a b c. o.lt_eq a.key b.key c.key;
    eq_lt = λ a b c. o.eq_lt a.key b.key c.key;
  };
}

module _ {ℓ κ} {K : Type ℓ} {V : Type κ} ⦃o : Compare K⦄ where
  abbrev pub IsAscending : List (Entry K V) → Type 0
  IsAscending es = IsSorted ⦃o = by_key V⦄ es

  unfoldable pub lookup : K → List (Entry K V) → Option V
  lookup k [] = none
  lookup k (e ∷ es) = elim (o.cmp k e.key) [ eq ↦ some e.value | _ ↦ lookup k es ]

  -- The map with `v` under `k`; a key that is there stays as it is.
  unfoldable pub put : K → V → List (Entry K V) → List (Entry K V)
  put k v [] = record { key = k; value = v } ∷ []
  put k v (e ∷ es) = elim (o.cmp k e.key) [
    | lt ↦ record { key = k; value = v } ∷ (e ∷ es)
    | eq ↦ record e { value = v } ∷ es
    | gt ↦ e ∷ put k v es
  ]

  -- The map without `k`.
  unfoldable pub delete : K → List (Entry K V) → List (Entry K V)
  delete k [] = []
  delete k (e ∷ es) = elim (o.cmp k e.key) [ lt ↦ e ∷ es | eq ↦ es | gt ↦ e ∷ delete k es ]

  -- A key in the map afterwards is the one that was put, or one from before.
  pub lookup-put :
      (j k : K) (v : V) (es : List (Entry K V))
      → lookup j (put k v es) ≡ (if is_eq (o.cmp j k) then some v else lookup j es)
  unfolding lookup put
  lookup-put j k v [] = elim (Ordering-cases (o.cmp j k)) [
    | inl a ↦ rw (lookup, a)
    | inr (inl a) ↦ rw (lookup, a)
    | inr (inr a) ↦ rw (lookup, a)
  ]
  lookup-put j k v (e ∷ es) = elim (Ordering-cases (o.cmp k e.key)) [
    | inl c ↦ elim (Ordering-cases (o.cmp j k)) [
      | inl a ↦ rw (c, put, lookup, a)
      | inr (inl a) ↦ rw (c, put, lookup, a)
      | inr (inr a) ↦ rw (c, put, lookup, a)
    ]
    | inr (inl c) ↦ elim (Ordering-cases (o.cmp j k)) [
      | inl a ↦ rw (c, put, lookup, a, o.lt_eq j k e.key a c)
      | inr (inl a) ↦ rw (c, put, lookup, a, eq_trans j k e.key a c)
      | inr (inr a) ↦
          let past =
            o.gt_of_lt e.key j (o.eq_lt e.key k j (o.eq_symm k e.key c) (o.lt_of_gt j k a)) in
          rw (c, put, lookup, a, past)
    ]
    | inr (inr c) ↦ elim (Ordering-cases (o.cmp j e.key)) [
      | inl a ↦ rw (c, put, lookup, a, lookup) (lookup-put j k v es)
      | inr (inl a) ↦
          let below = o.eq_lt j e.key k a (o.lt_of_gt k e.key c) in rw (c, put, lookup, a, below)
      | inr (inr a) ↦ rw (c, put, lookup, a, lookup) (lookup-put j k v es)
    ]
  ]

  pub absent :
      (k : K) (es : List (Entry K V)) → All (λ e. o.cmp k e.key ≡ lt) es → lookup k es ≡ none
  unfolding lookup
  absent k [] h = refl
  absent k (e ∷ es) h = rw (h.0, lookup) (absent k es h.1)

  -- No key in the map afterwards equals the one that was deleted; the others are as before.
  pub lookup-delete :
      (j k : K) (es : List (Entry K V))
      → IsAscending es
      → lookup j (delete k es) ≡ (if is_eq (o.cmp j k) then none else lookup j es)
  unfolding lookup delete
  lookup-delete j k [] s = elim (Ordering-cases (o.cmp j k)) [
    | inl a ↦ rw (lookup, a)
    | inr (inl a) ↦ rw (lookup, a)
    | inr (inr a) ↦ rw (lookup, a)
  ]
  lookup-delete j k (e ∷ es) s =
      let later : (a : K) → o.cmp a e.key ≡ lt → lookup a es ≡ none =
        λ a h. absent a es (All-imp (λ d p. o.lt_trans a e.key d.key h p) es s.0) in
      elim (Ordering-cases (o.cmp k e.key)) [
        | inl c ↦ elim (Ordering-cases (o.cmp j k)) [
          | inl a ↦ rw (c, delete, a)
          | inr (inl a) ↦
              let below = o.eq_lt j k e.key a c in rw (c, delete, a, lookup, below) (later j below)
          | inr (inr a) ↦ rw (c, delete, a)
        ]
        | inr (inl c) ↦ elim (Ordering-cases (o.cmp j k)) [
          | inl a ↦ rw (c, delete, a, lookup, o.lt_eq j k e.key a c)
          | inr (inl a) ↦
              let same = eq_trans j k e.key a c in
              rw (c, delete, a) (absent j es (All-imp (λ d p. o.eq_lt j e.key d.key same p) es s.0))
          | inr (inr a) ↦
              let past =
                o.gt_of_lt e.key j (o.eq_lt e.key k j (o.eq_symm k e.key c) (o.lt_of_gt j k a)) in
              rw (c, delete, a, lookup, past)
        ]
        | inr (inr c) ↦ elim (Ordering-cases (o.cmp j e.key)) [
          | inl a ↦ rw (c, delete, lookup, a, lookup) (lookup-delete j k es s.1)
          | inr (inl a) ↦
              let below = o.eq_lt j e.key k a (o.lt_of_gt k e.key c) in
              rw (c, delete, lookup, a, below)
          | inr (inr a) ↦ rw (c, delete, lookup, a, lookup) (lookup-delete j k es s.1)
        ]
      ]
