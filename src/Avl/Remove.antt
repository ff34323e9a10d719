-- ===== src/Avl/Remove.antt =====
-- Deletion in the search tree of src/avl/avl.c: `do_remove`.
use Prim.Native.Nat.Ordering.{eq}
use seqc.Prelude.{
  ℕ, suc, ◌≤◌, ◌≡◌, refl, sym, ap, ◌∙◌, List, [], ◌∷◌, ◌++◌, append_assoc, append-nil, inl, inr,
  arith, Allocator,
}
use seqc.Order.{Compare, Ordering-cases}
use seqc.Order.Sorted.{
  IsSorted, remove, member, Below-prefix, remove_before, remove_after, member_before, member_after,
  IsSorted-left, IsSorted-right,
}
use seqc.Order.Sets.{remove_root}
use seqc.Avl.{Tree, leaf, node, rebalance, node_height, min_from, min_of}
use seqc.Avl.Api.{Removal, do_remove}
use seqc.Avl.Balance.{IsAvl, rebalance-Rebalanced}
use seqc.Avl.Inorder.{to_list, to_list-rebalance}

module _ {ℓ} {A : Type ℓ} where
  -- A subtree that lost at most one element: balanced, and lower by at most one.
  abbrev pub Shrunk : Tree A → Tree A → Type 0
  Shrunk t t' = IsAvl t' × (node_height t' ≤ node_height t) × (node_height t ≤ suc (node_height t'))

  Shrunk-left :
      (l : Tree A) (x : A) (h : ℕ) (r l' : Tree A)
      → IsAvl (node l x h r)
      → Shrunk l l'
      → Shrunk (node l x h r) (rebalance (node l' x h r))
  unfolding node_height
  Shrunk-left l x h r l' (pl, pr, ph, low, high) (ql, bound, shrinks) =
      let z = rebalance-Rebalanced l' x h r ql pr (omega arith) (omega arith) in
      (z.balanced, grind (arith, z.even, z.at_most), grind (arith, z.even, z.at_least))

  Shrunk-right :
      (l : Tree A) (x y : A) (h : ℕ) (r r' : Tree A)
      → IsAvl (node l x h r)
      → Shrunk r r'
      → Shrunk (node l x h r) (rebalance (node l y h r'))
  unfolding node_height
  Shrunk-right l x y h r r' (pl, pr, ph, low, high) (qr, bound, shrinks) =
      let z = rebalance-Rebalanced l y h r' pl qr (omega arith) (omega arith) in
      (z.balanced, grind (arith, z.even, z.at_most), grind (arith, z.even, z.at_least))

  Shrunk-only_left :
      (l : Tree A) (x : A) (h : ℕ) → IsAvl (node l x h leaf) → Shrunk (node l x h leaf) l
  unfolding node_height
  Shrunk-only_left l x h (pl, pr, ph, low, high) = (pl, omega arith, omega arith)

  Shrunk-only_right :
      (x : A) (h : ℕ) (r : Tree A) → IsAvl (node leaf x h r) → Shrunk (node leaf x h r) r
  unfolding node_height
  Shrunk-only_right x h r (pl, pr, ph, low, high) = (pr, omega arith, omega arith)

  -- The leftmost element is the first in order.
  pub first :
      (l : Tree A) (x : A) (zs : List A)
      → (ys : List A) × (to_list l ++ (x ∷ zs) ≡ min_from l x ∷ ys)
  unfolding to_list min_from
  first leaf x zs = (zs, refl)
  first (node l y h r) x zs =
      let e = append_assoc (to_list l) (y ∷ to_list r) (x ∷ zs) in
      let (ys, f) = first l y (to_list r ++ (x ∷ zs)) in (ys, e ∙ f)

module _ {ℓ} {A : Type ℓ} ⦃o : Compare A⦄ where
  -- Taking the least element out leaves the rest.
  pub remove_first :
      (l : Tree A) (x : A) (h : ℕ) (r : Tree A)
      → (to_list (node l x h r) ≡ min_from l x ∷ remove (min_from l x) (to_list (node l x h r)))
  unfolding to_list remove
  remove_first l x h r =
      let (ys, e) = first l x (to_list r) in
      let out : remove (min_from l x) (min_from l x ∷ ys) ≡ ys =
        rw (o.cmp_refl (min_from l x), remove) in
      e ∙ ap (◌∷◌ (min_from l x)) (sym (ap (remove (min_from l x)) e ∙ out))

module _ {ℓ κ} {A : Type ℓ} {H : Type κ} ⦃o : Compare A⦄ ⦃al : Allocator H⦄ where
  root-Shrunk :
      (size : ℕ) (l : Tree A) (y : A) (ht : ℕ) (r : Tree A) (x : A) (h : H)
      → o.cmp x y ≡ eq
      → IsAvl (node l y ht r)
      → ((z : A) → Shrunk r (do_remove size r z h).tree)
      → Shrunk (node l y ht r) (do_remove size (node l y ht r) x h).tree
  unfolding do_remove
  root-Shrunk size leaf y ht r x h e p below = rw (e, do_remove) (Shrunk-only_right y ht r p)
  root-Shrunk size (node a z k b) y ht leaf x h e p below =
      rw (e, do_remove) (Shrunk-only_left (node a z k b) y ht p)
  root-Shrunk size (node a z k b) y ht (node c u j d) x h e p below =
      let succ = min_of (node c u j d) y in
      rw (e, do_remove) (Shrunk-right (node a z k b) y succ ht (node c u j d) _ p (below succ))

  -- do_remove keeps a balanced tree balanced, and its height is the old one or one less.
  pub do_remove-Shrunk :
      (size : ℕ) (t : Tree A) (x : A) (h : H) → IsAvl t → Shrunk t (do_remove size t x h).tree
  unfolding do_remove
  do_remove-Shrunk size leaf x h p = (tt, omega arith, omega arith)
  do_remove-Shrunk size (node l y ht r) x h p = elim (Ordering-cases (o.cmp x y)) [
    | inl e ↦ rw (e, do_remove) (Shrunk-left l y ht r _ p (do_remove-Shrunk size l x h p.0))
    | inr (inl e) ↦ root-Shrunk size l y ht r x h e p (λ z. do_remove-Shrunk size r z h p.1)
    | inr (inr e) ↦
        rw (e, do_remove) (Shrunk-right l y y ht r _ p (do_remove-Shrunk size r x h p.1))
  ]

  -- What `do_remove` leaves: the ascending list without the element, and whether it was there.
  abbrev pub Removed : Tree A → A → Removal A H → Type ℓ
  Removed t x d = (to_list d.tree ≡ remove x (to_list t)) × (d.removed ≡ member x (to_list t))

  root-Removed :
      (size : ℕ) (l : Tree A) (y : A) (ht : ℕ) (r : Tree A) (x : A) (h : H)
      → o.cmp x y ≡ eq
      → IsSorted (to_list (node l y ht r))
      → ((z : A) → Removed r z (do_remove size r z h))
      → Removed (node l y ht r) x (do_remove size (node l y ht r) x h)
  unfolding do_remove to_list remove member min_of
  root-Removed size leaf y ht r x h e s below =
      (rw (e, do_remove, remove), rw (e, do_remove, member))
  root-Removed size (node a z k b) y ht leaf x h e s below =
      let (cut, found) = remove_root x (to_list (node a z k b)) y [] s e in
      (
        rw (e, do_remove) (sym (cut ∙ append-nil (to_list (node a z k b)))),
        rw (e, do_remove) (sym found),
      )
  root-Removed size (node a z k b) y ht (node c u j d) x h e s below =
      let xs = to_list (node a z k b) in
      let r = node c u j d in
      let succ = min_from c u in
      let (cut, found) = remove_root x xs y (to_list r) s e in
      let (elements, _) = below succ in
      (
        rw (e, do_remove)
            (to_list-rebalance (node a z k b) succ ht _
              ∙ ap (λ (zs : List A). xs ++ (succ ∷ zs)) elements
              ∙ ap (λ (zs : List A). xs ++ zs) (sym (remove_first c u j d))
              ∙ sym cut),
        rw (e, do_remove) (sym found),
      )

  -- `do_remove` on a tree in order takes out the element that compares equal to `x`, and says
  -- whether there was one.
  pub do_remove-Removed :
      (size : ℕ) (t : Tree A) (x : A) (h : H)
      → IsSorted (to_list t)
      → Removed t x (do_remove size t x h)
  unfolding do_remove to_list remove member
  do_remove-Removed size leaf x h s = (refl, refl)
  do_remove-Removed size (node l y ht r) x h s =
      let xs = to_list l in
      let ys = to_list r in
      elim (Ordering-cases (o.cmp x y)) [
        | inl e ↦
            let (elements, found) = do_remove-Removed size l x h (IsSorted-left xs (y ∷ ys) s) in
            (
              rw (e, do_remove)
                  (to_list-rebalance _ y ht r
                    ∙ ap (λ (zs : List A). zs ++ (y ∷ ys)) elements
                    ∙ sym (remove_before x xs y ys e)),
              rw (e, do_remove) (found ∙ sym (member_before x xs y ys e s)),
            )
        | inr (inl e) ↦
            root-Removed size l y ht r x h e s
              (λ z. do_remove-Removed size r z h (IsSorted-right xs (y ∷ ys) s).1)
        | inr (inr e) ↦
            let below = Below-prefix x xs y ys s (λ f. cc (sym e ∙ f)) in
            let cut : remove x (y ∷ ys) ≡ y ∷ remove x ys = rw (e, remove) in
            let skip : member x (y ∷ ys) ≡ member x ys = rw (e, member) in
            let (elements, found) = do_remove-Removed size r x h (IsSorted-right xs (y ∷ ys) s).1 in
            (
              rw (e, do_remove)
                  (to_list-rebalance l y ht _
                    ∙ ap (λ (zs : List A). xs ++ (y ∷ zs)) elements
                    ∙ sym (remove_after x xs (y ∷ ys) below ∙ ap (λ (zs : List A). xs ++ zs) cut)),
              rw (e, do_remove) (found ∙ sym (member_after x xs (y ∷ ys) below ∙ skip)),
            )
      ]
