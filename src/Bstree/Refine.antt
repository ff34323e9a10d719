-- ===== src/Bstree/Refine.antt =====
-- The nodes of the tree of src/bstree/bstree.c in order, under `attach`, `find` and `do_remove`.
use seqc.Prelude.{
  ℕ, ◌≡◌, refl, sym, ap, ◌∙◌, ◌⊎◌, List, [], ◌∷◌, ◌++◌, append_assoc, if◌then◌else◌, Option-cases,
  none, inl, inr, Status, ok, duplicate, oom, Allocator,
}
use seqc.Order.{Compare, Ordering-cases}
use seqc.Order.Sorted.{
  IsSorted, add, remove, member, Below-prefix, add_before, add_after, member_before, member_after,
  IsSorted-left, IsSorted-right,
}
use seqc.Order.Sets.{remove_root}
use seqc.Bstree.{Tree, leaf, node, node_alloc_size, find, attach, min_from}

module _ {ℓ} {A : Type ℓ} where
  unfoldable pub to_list : Tree A → List A
  to_list leaf = []
  to_list (node l x r) = to_list l ++ (x ∷ to_list r)

  -- The leftmost element is the first in order.
  pub first :
      (l : Tree A) (x : A) (zs : List A)
      → (ys : List A) × (to_list l ++ (x ∷ zs) ≡ min_from l x ∷ ys)
  unfolding to_list min_from
  first leaf x zs = (zs, refl)
  first (node l y r) x zs =
      let e = append_assoc (to_list l) (y ∷ to_list r) (x ∷ zs) in
      let (ys, f) = first l y (to_list r ++ (x ∷ zs)) in (ys, e ∙ f)

module _ {ℓ} {A : Type ℓ} ⦃o : Compare A⦄ where
  pub remove_first :
      (l : Tree A) (x : A) (r : Tree A)
      → (to_list (node l x r) ≡ min_from l x ∷ remove (min_from l x) (to_list (node l x r)))
  unfolding to_list remove
  remove_first l x r =
      let (ys, e) = first l x (to_list r) in
      let out : remove (min_from l x) (min_from l x ∷ ys) ≡ ys =
        rw (o.cmp_refl (min_from l x), remove) in
      e ∙ ap (◌∷◌ (min_from l x)) (sym (ap (remove (min_from l x)) e ∙ out))

  pub find_lem : (t : Tree A) (x : A) → IsSorted (to_list t) → find t x ≡ member x (to_list t)
  unfolding find to_list member
  find_lem leaf x s = refl
  find_lem (node l y r) x s =
      let xs = to_list l in
      let ys = to_list r in
      elim (Ordering-cases (o.cmp x y)) [
        | inl e ↦
            rw (e, find)
              (find_lem l x (IsSorted-left xs (y ∷ ys) s) ∙ sym (member_before x xs y ys e s))
        | inr (inl e) ↦ rw (e, find) (sym (remove_root x xs y ys s e).1)
        | inr (inr e) ↦
            let skip : member x (y ∷ ys) ≡ member x ys = rw (e, member) in
            let below = Below-prefix x xs y ys s (λ f. cc (sym e ∙ f)) in
            rw (e, find)
              (find_lem r x (IsSorted-right xs (y ∷ ys) s).1
                ∙ sym (member_after x xs (y ∷ ys) below ∙ skip))
      ]

module _ {ℓ κ} {A : Type ℓ} {H : Type κ} ⦃o : Compare A⦄ ⦃al : Allocator H⦄ where
  -- What `attach` of `x` below `t` leaves: all as it was where the allocator refuses the node, and
  -- otherwise the elements of `t` with `x`.
  abbrev pub Attached : ℕ → Tree A → A → H → Status × Tree A × H → Type (ℓ ⊔ κ)
  Attached size t x h result =
      ((result ≡ (oom, t, h)) × (al.alloc (node_alloc_size size) h ≡ none))
      ⊎ ((t' : Tree A) × (h' : H) × (result
            ≡ ((if member x (to_list t) then duplicate else ok), t', h'))
          × (to_list t' ≡ add x (to_list t)))

  pub attach-Attached :
      (size : ℕ) (t : Tree A) (x : A) (h : H)
      → IsSorted (to_list t)
      → Attached size t x h (attach size t x h)
  unfolding attach to_list add member
  attach-Attached size leaf x h s = elim (Option-cases (al.alloc (node_alloc_size size) h)) [
    | inl e ↦ inl (rw (e, attach), e)
    | inr (h', e) ↦ inr (node leaf x leaf, h', rw (e, attach), refl)
  ]
  attach-Attached size (node l y r) x h s =
      let xs = to_list l in
      let ys = to_list r in
      elim (Ordering-cases (o.cmp x y)) [
        | inl e ↦ elim (attach-Attached size l x h (IsSorted-left xs (y ∷ ys) s)) [
          | inl (same, refused) ↦ inl (rw (e, attach, same), refused)
          | inr (t', h', given, elements) ↦ inr (
            node t' y r,
            h',
            rw (e, attach, given, member_before x xs y ys e s),
            ap (λ (zs : List A). zs ++ (y ∷ ys)) elements ∙ sym (add_before x xs y ys e),
          )
        ]
        | inr (inl e) ↦
            let below = Below-prefix x xs y ys s (λ f. cc (sym e ∙ f)) in
            let put : add x (y ∷ ys) ≡ y ∷ ys = rw (e, add) in
            inr (
              node l y r,
              h,
              rw (e, attach, (remove_root x xs y ys s e).1),
              sym (add_after x xs (y ∷ ys) below ∙ ap (λ (zs : List A). xs ++ zs) put),
            )
        | inr (inr e) ↦
            let below = Below-prefix x xs y ys s (λ f. cc (sym e ∙ f)) in
            let put : add x (y ∷ ys) ≡ y ∷ add x ys = rw (e, add) in
            let skip : member x (y ∷ ys) ≡ member x ys = rw (e, member) in
            elim (attach-Attached size r x h (IsSorted-right xs (y ∷ ys) s).1) [
              | inl (same, refused) ↦ inl (rw (e, attach, same), refused)
              | inr (t', h', given, elements) ↦ inr (
                node l y t',
                h',
                rw (e, attach, given, member_after x xs (y ∷ ys) below ∙ skip),
                ap (λ (zs : List A). xs ++ (y ∷ zs)) elements
                    ∙ sym (add_after x xs (y ∷ ys) below ∙ ap (λ (zs : List A). xs ++ zs) put),
              )
            ]
      ]
