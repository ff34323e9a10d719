-- ===== src/Bstree/Remove.antt =====
-- Deletion in the search tree of src/bstree/bstree.c: `do_remove`.
use Prim.Native.Nat.Ordering.{eq}
use seqc.Prelude.{ℕ, ◌≡◌, refl, sym, ap, ◌∙◌, List, [], ◌∷◌, ◌++◌, append-nil, inl, inr, Allocator}
use seqc.Order.{Compare, Ordering-cases}
use seqc.Order.Sorted.{
  IsSorted, remove, member, Below-prefix, remove_before, remove_after, member_before, member_after,
  IsSorted-left, IsSorted-right,
}
use seqc.Order.Sets.{remove_root}
use seqc.Bstree.{Tree, leaf, node, Removal, do_remove, min_from, min_of}
use seqc.Bstree.Refine.{to_list, remove_first}

module _ {ℓ κ} {A : Type ℓ} {H : Type κ} ⦃o : Compare A⦄ ⦃al : Allocator H⦄ where
  -- What `do_remove` leaves: the ascending list without the element, and whether it was there.
  abbrev pub Cut : Tree A → A → Removal A H → Type ℓ
  Cut t x d = (to_list d.tree ≡ remove x (to_list t)) × (d.removed ≡ member x (to_list t))

  root-Cut :
      (size : ℕ) (l : Tree A) (y : A) (r : Tree A) (x : A) (h : H)
      → o.cmp x y ≡ eq
      → IsSorted (to_list (node l y r))
      → ((z : A) → Cut r z (do_remove size r z h))
      → Cut (node l y r) x (do_remove size (node l y r) x h)
  unfolding do_remove to_list remove member min_of
  root-Cut size leaf y r x h e s below = (rw (e, do_remove, remove), rw (e, do_remove, member))
  root-Cut size (node a z b) y leaf x h e s below =
      let (cut, found) = remove_root x (to_list (node a z b)) y [] s e in
      (
        rw (e, do_remove) (sym (cut ∙ append-nil (to_list (node a z b)))),
        rw (e, do_remove) (sym found),
      )
  root-Cut size (node a z b) y (node c u d) x h e s below =
      let xs = to_list (node a z b) in
      let r = node c u d in
      let succ = min_from c u in
      let (cut, found) = remove_root x xs y (to_list r) s e in
      let (elements, _) = below succ in
      (
        rw (e, do_remove)
            (ap (λ (zs : List A). xs ++ (succ ∷ zs)) elements
              ∙ ap (λ (zs : List A). xs ++ zs) (sym (remove_first c u d))
              ∙ sym cut),
        rw (e, do_remove) (sym found),
      )

  -- `do_remove` on a tree in order takes out the element that compares equal to `x`, and says
  -- whether there was one.
  pub do_remove-Cut :
      (size : ℕ) (t : Tree A) (x : A) (h : H)
      → IsSorted (to_list t)
      → Cut t x (do_remove size t x h)
  unfolding do_remove to_list remove member
  do_remove-Cut size leaf x h s = (refl, refl)
  do_remove-Cut size (node l y r) x h s =
      let xs = to_list l in
      let ys = to_list r in
      elim (Ordering-cases (o.cmp x y)) [
        | inl e ↦
            let (elements, found) = do_remove-Cut size l x h (IsSorted-left xs (y ∷ ys) s) in
            (
              rw (e, do_remove)
                  (ap (λ (zs : List A). zs ++ (y ∷ ys)) elements ∙ sym (remove_before x xs y ys e)),
              rw (e, do_remove) (found ∙ sym (member_before x xs y ys e s)),
            )
        | inr (inl e) ↦
            root-Cut size l y r x h e s
              (λ z. do_remove-Cut size r z h (IsSorted-right xs (y ∷ ys) s).1)
        | inr (inr e) ↦
            let below = Below-prefix x xs y ys s (λ f. cc (sym e ∙ f)) in
            let cut : remove x (y ∷ ys) ≡ y ∷ remove x ys = rw (e, remove) in
            let skip : member x (y ∷ ys) ≡ member x ys = rw (e, member) in
            let (elements, found) = do_remove-Cut size r x h (IsSorted-right xs (y ∷ ys) s).1 in
            (
              rw (e, do_remove)
                  (ap (λ (zs : List A). xs ++ (y ∷ zs)) elements
                    ∙ sym (remove_after x xs (y ∷ ys) below ∙ ap (λ (zs : List A). xs ++ zs) cut)),
              rw (e, do_remove) (found ∙ sym (member_after x xs (y ∷ ys) below ∙ skip)),
            )
      ]
