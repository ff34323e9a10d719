-- ===== src/Omap/Set.antt =====
-- omap_set's descent: the tree stays balanced, and its entries are those of the map with the key put.
use seqc.Prelude.{
  ℕ, ◌≡◌, sym, ap, ◌∙◌, Bool, true, false, not, ◌⊎◌, inl, inr, none, Option-cases, Bool-cases, List,
  ◌∷◌, ◌++◌, Allocator, arith,
}
use seqc.Order.{Compare, Ordering-cases}
use seqc.Order.Sorted.{
  member, Below-prefix, member_before, member_after, IsSorted-left, IsSorted-right,
}
use seqc.Avl.{Tree, leaf, node, node_height}
use seqc.Avl.Balance.{IsAvl}
use seqc.Avl.Inorder.{to_list, to_list-rebalance}
use seqc.Avl.Insert.{Grown, Grown-refl, Grown-left, Grown-right}
use seqc.Omap.{Entry, Setting, rebalance, do_set}
use seqc.Omap.Entries.{by_key, IsAscending, put}
use seqc.Omap.Puts.{put_before, put_after}

module _ {ℓ κ} {K : Type ℓ} {V : Type κ} ⦃o : Compare K⦄ where
  -- The key is among those of the entries.
  abbrev pub has_key : K → V → List (Entry K V) → Bool
  has_key k v es = member ⦃o = by_key V⦄ (record { key = k; value = v }) es

module _ {ℓ κ μ} {K : Type ℓ} {V : Type κ} {H : Type μ} ⦃o : Compare K⦄ ⦃al : Allocator H⦄ where
  -- do_set keeps a balanced tree balanced, and its height is the old one or one more.
  pub do_set-Grown :
      (size : ℕ) (t : Tree (Entry K V)) (k : K) (v : V) (h : H)
      → IsAvl t
      → Grown t (do_set size t k v h).tree
  unfolding do_set rebalance node_height
  do_set-Grown size leaf k v h p = elim (Option-cases (al.alloc size h)) [
    | inl e ↦ rw (e, do_set) (tt, omega arith, omega arith)
    | inr (h', e) ↦
        rw (e, do_set) ((tt, tt, omega arith, omega arith, omega arith), omega arith, omega arith)
  ]
  do_set-Grown size (node l y ht r) k v h p = elim (Ordering-cases (o.cmp k y.key)) [
    | inl e ↦ elim (Bool-cases (do_set size l k v h).oom) [
      | inl refused ↦ rw (e, do_set, refused) (Grown-refl (node l y ht r) p)
      | inr given ↦ rw (e, do_set, given) (Grown-left l y ht r _ p (do_set-Grown size l k v h p.0))
    ]
    | inr (inl e) ↦ rw (e, do_set) (p, omega arith, omega arith)
    | inr (inr e) ↦ elim (Bool-cases (do_set size r k v h).oom) [
      | inl refused ↦ rw (e, do_set, refused) (Grown-refl (node l y ht r) p)
      | inr given ↦ rw (e, do_set, given) (Grown-right l y ht r _ p (do_set-Grown size r k v h p.1))
    ]
  ]

  -- What `do_set` leaves: all as it was if the allocator refuses the node, and otherwise the entries
  -- with the key put, and whether it was new.
  abbrev pub IsSetTo : ℕ → Tree (Entry K V) → K → V → H → Setting K V H → Type (ℓ ⊔ κ ⊔ μ)
  IsSetTo size t k v h s =
      ((s ≡ record { tree = t; inserted = false; oom = true; heap = h }) × (al.alloc size h ≡ none))
      ⊎ ((s.oom ≡ false)
          × (to_list s.tree ≡ put k v (to_list t))
          × (s.inserted ≡ not (has_key k v (to_list t))))

  pub do_set_lem :
      (size : ℕ) (t : Tree (Entry K V)) (k : K) (v : V) (h : H)
      → IsAscending (to_list t)
      → IsSetTo size t k v h (do_set size t k v h)
  unfolding do_set rebalance to_list put member
  do_set_lem size leaf k v h s = elim (Option-cases (al.alloc size h)) [
    | inl e ↦ inl (rw (e, do_set), e)
    | inr (h', e) ↦ inr (rw (e, do_set), rw (e, do_set), rw (e, do_set))
  ]
  do_set_lem size (node l y ht r) k v h s =
      let x : Entry K V = record { key = k; value = v } in
      let xs = to_list l in
      let ys = to_list r in
      elim (Ordering-cases (o.cmp k y.key)) [
        | inl e ↦ elim (do_set_lem size l k v h (IsSorted-left ⦃o = by_key V⦄ xs (y ∷ ys) s)) [
          | inl (same, refused) ↦ inl (rw (e, do_set, same), refused)
          | inr (given, elements, fresh) ↦
              let i = do_set size l k v h in
              inr (
                rw (e, do_set, given),
                rw (e, do_set, given)
                    (to_list-rebalance i.tree y ht r
                      ∙ ap (λ (zs : List (Entry K V)). zs ++ (y ∷ ys)) elements
                      ∙ sym (put_before k v xs y ys e)),
                rw (e, do_set, given)
                    (fresh ∙ ap not (sym (member_before ⦃o = by_key V⦄ x xs y ys e s))),
              )
        ]
        | inr (inl e) ↦
            let below = Below-prefix ⦃o = by_key V⦄ x xs y ys s (λ f. cc (sym e ∙ f)) in
            let changed : put k v (y ∷ ys) ≡ record y { value = v } ∷ ys = rw (e, put) in
            let found : has_key k v (y ∷ ys) ≡ true = rw (e, member) in
            inr (
              rw (e, do_set),
              rw (e, do_set)
                  (sym (
                    put_after k v xs (y ∷ ys) below
                    ∙ ap (λ (zs : List (Entry K V)). xs ++ zs) changed)),
              rw (e, do_set)
                  (sym (ap not (member_after ⦃o = by_key V⦄ x xs (y ∷ ys) below ∙ found))),
            )
        | inr (inr e) ↦
            let below = Below-prefix ⦃o = by_key V⦄ x xs y ys s (λ f. cc (sym e ∙ f)) in
            let changed : put k v (y ∷ ys) ≡ y ∷ put k v ys = rw (e, put) in
            let found : has_key k v (y ∷ ys) ≡ has_key k v ys = rw (e, member) in
            elim (do_set_lem size r k v h (IsSorted-right ⦃o = by_key V⦄ xs (y ∷ ys) s).1) [
              | inl (same, refused) ↦ inl (rw (e, do_set, same), refused)
              | inr (given, elements, fresh) ↦
                  let i = do_set size r k v h in
                  inr (
                    rw (e, do_set, given),
                    rw (e, do_set, given)
                        (to_list-rebalance l y ht i.tree
                          ∙ ap (λ (zs : List (Entry K V)). xs ++ (y ∷ zs)) elements
                          ∙ sym (
                              put_after k v xs (y ∷ ys) below
                              ∙ ap (λ (zs : List (Entry K V)). xs ++ zs) changed)),
                    rw (e, do_set, given)
                        (fresh
                          ∙ ap not (sym (member_after ⦃o = by_key V⦄ x xs (y ∷ ys) below ∙ found))),
                  )
            ]
      ]
