-- ===== src/Avl/Insert.antt =====
-- `do_insert`: the tree stays balanced, and its elements are those of the ascending list with the
-- element added.
use seqc.Prelude.{
  ℕ, suc, ◌≤◌, ◌≡◌, sym, ap, ◌∙◌, true, false, not, ◌⊎◌, inl, inr, arith, none, Bool-cases,
  Option-cases, List, ◌∷◌, ◌++◌, Allocator,
}
use seqc.Order.{Compare, Ordering-cases}
use seqc.Order.Sorted.{
  IsSorted, add, member, add_before, add_after, member_before, member_after, Below-prefix,
  IsSorted-left, IsSorted-right,
}
use seqc.Avl.{Tree, leaf, node, node_height, rebalance, node_alloc_size}
use seqc.Avl.Api.{Insertion, do_insert}
use seqc.Avl.Balance.{IsAvl, rebalance-Rebalanced}
use seqc.Avl.Inorder.{to_list, to_list-rebalance}

-- A balanced tree, of the old height or one level more.
abbrev pub Grown {ℓ} : {A : Type ℓ} → Tree A → Tree A → Type 0
Grown t t' = IsAvl t' × (node_height t ≤ node_height t') × (node_height t' ≤ suc (node_height t))

module _ {ℓ} {A : Type ℓ} where
  pub Grown-refl : (t : Tree A) → IsAvl t → Grown t t
  Grown-refl t p = (p, omega arith, omega arith)

  pub Grown-left :
      (l : Tree A) (y : A) (ht : ℕ) (r l' : Tree A)
      → IsAvl (node l y ht r)
      → Grown l l'
      → Grown (node l y ht r) (rebalance (node l' y ht r))
  unfolding node_height
  Grown-left l y ht r l' (pl, pr, ph, low, high) (ql, grows, bound) =
      let z = rebalance-Rebalanced l' y ht r ql pr (omega arith) (omega arith) in
      (z.balanced, grind (arith, z.even, z.at_least), grind (arith, z.even, z.at_most))

  pub Grown-right :
      (l : Tree A) (y : A) (ht : ℕ) (r r' : Tree A)
      → IsAvl (node l y ht r)
      → Grown r r'
      → Grown (node l y ht r) (rebalance (node l y ht r'))
  unfolding node_height
  Grown-right l y ht r r' (pl, pr, ph, low, high) (qr, grows, bound) =
      let z = rebalance-Rebalanced l y ht r' pl qr (omega arith) (omega arith) in
      (z.balanced, grind (arith, z.even, z.at_least), grind (arith, z.even, z.at_most))

-- What `do_insert` of `x` into `t` leaves: all as it was if the allocator refuses the node, and
-- otherwise the elements of `t` with `x`, and whether it was new.
abbrev pub Inserted {ℓ κ} :
    {A : Type ℓ} {H : Type κ} ⦃o : Compare A⦄ ⦃al : Allocator H⦄
    → ℕ
    → Tree A
    → A
    → H
    → Insertion A H
    → Type (ℓ ⊔ κ)
Inserted ⦃o⦄ ⦃al⦄ size t x h i =
    ((i ≡ record { tree = t; inserted = false; oom = true; heap = h })
      × (al.alloc (node_alloc_size size) h ≡ none))
    ⊎ ((i.oom ≡ false)
        × (to_list i.tree ≡ add x (to_list t))
        × (i.inserted ≡ not (member x (to_list t))))

module _ {ℓ κ} {A : Type ℓ} {H : Type κ} ⦃o : Compare A⦄ ⦃al : Allocator H⦄ where
  -- do_insert keeps a balanced tree balanced, and its height is the old one or one more.
  pub do_insert-Grown :
      (size : ℕ) (t : Tree A) (x : A) (h : H) → IsAvl t → Grown t (do_insert size t x h).tree
  unfolding do_insert node_height
  do_insert-Grown size leaf x h p = elim (Option-cases (al.alloc (node_alloc_size size) h)) [
    | inl e ↦ rw (e, do_insert) (tt, omega arith, omega arith)
    | inr (h', e) ↦
        rw (e, do_insert)
          ((tt, tt, omega arith, omega arith, omega arith), omega arith, omega arith)
  ]
  do_insert-Grown size (node l y ht r) x h p = elim (Ordering-cases (o.cmp x y)) [
    | inl e ↦ elim (Bool-cases (do_insert size l x h).oom) [
      | inl refused ↦ rw (e, do_insert, refused) (Grown-refl (node l y ht r) p)
      | inr given ↦
          rw (e, do_insert, given) (Grown-left l y ht r _ p (do_insert-Grown size l x h p.0))
    ]
    | inr (inl e) ↦ rw (e, do_insert) (Grown-refl (node l y ht r) p)
    | inr (inr e) ↦ elim (Bool-cases (do_insert size r x h).oom) [
      | inl refused ↦ rw (e, do_insert, refused) (Grown-refl (node l y ht r) p)
      | inr given ↦
          rw (e, do_insert, given) (Grown-right l y ht r _ p (do_insert-Grown size r x h p.1))
    ]
  ]

  -- The elements afterwards are those of the ascending list with the element added.
  pub do_insert-Inserted :
      (size : ℕ) (t : Tree A) (x : A) (h : H)
      → IsSorted (to_list t)
      → Inserted size t x h (do_insert size t x h)
  unfolding do_insert to_list add member
  do_insert-Inserted size leaf x h s = elim (Option-cases (al.alloc (node_alloc_size size) h)) [
    | inl e ↦ inl (rw (e, do_insert), e)
    | inr (h', e) ↦ inr (rw (e, do_insert), rw (e, do_insert), rw (e, do_insert))
  ]
  do_insert-Inserted size (node l y ht r) x h s =
      let xs = to_list l in
      let ys = to_list r in
      elim (Ordering-cases (o.cmp x y)) [
        | inl e ↦ elim (do_insert-Inserted size l x h (IsSorted-left xs (y ∷ ys) s)) [
          | inl (same, refused) ↦ inl (rw (e, do_insert, same), refused)
          | inr (given, elements, fresh) ↦
              let i = do_insert size l x h in
              inr (
                rw (e, do_insert, given),
                rw (e, do_insert, given)
                    (to_list-rebalance i.tree y ht r
                      ∙ ap (λ (zs : List A). zs ++ (y ∷ ys)) elements
                      ∙ sym (add_before x xs y ys e)),
                rw (e, do_insert, given) (fresh ∙ ap not (sym (member_before x xs y ys e s))),
              )
        ]
        | inr (inl e) ↦
            let below = Below-prefix x xs y ys s (λ f. cc (sym e ∙ f)) in
            let put : add x (y ∷ ys) ≡ y ∷ ys = rw (e, add) in
            let found : member x (y ∷ ys) ≡ true = rw (e, member) in
            inr (
              rw (e, do_insert),
              rw (e, do_insert)
                  (sym (add_after x xs (y ∷ ys) below ∙ ap (λ (zs : List A). xs ++ zs) put)),
              rw (e, do_insert) (sym (ap not (member_after x xs (y ∷ ys) below ∙ found))),
            )
        | inr (inr e) ↦
            let below = Below-prefix x xs y ys s (λ f. cc (sym e ∙ f)) in
            let put : add x (y ∷ ys) ≡ y ∷ add x ys = rw (e, add) in
            let found : member x (y ∷ ys) ≡ member x ys = rw (e, member) in
            elim (do_insert-Inserted size r x h (IsSorted-right xs (y ∷ ys) s).1) [
              | inl (same, refused) ↦ inl (rw (e, do_insert, same), refused)
              | inr (given, elements, fresh) ↦
                  let i = do_insert size r x h in
                  inr (
                    rw (e, do_insert, given),
                    rw (e, do_insert, given)
                        (to_list-rebalance l y ht i.tree
                          ∙ ap (λ (zs : List A). xs ++ (y ∷ zs)) elements
                          ∙ sym
                              (add_after x xs (y ∷ ys) below ∙ ap (λ (zs : List A). xs ++ zs) put)),
                    rw (e, do_insert, given)
                        (fresh ∙ ap not (sym (member_after x xs (y ∷ ys) below ∙ found))),
                  )
            ]
      ]
