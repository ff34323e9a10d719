-- ===== src/Avl/Methods.antt =====
-- The public operations of src/avl/avl.c against ascending lists.
use seqc.Prelude.{
  ◌+◌, ◌-◌, ◌%◌, ◌<◌, ◌≡◌, refl, sym, ap, ◌∙◌, Bool, true, false, not, ◌⊎◌, inl, inr, arith, Option,
  none, some, if◌then◌else◌, ◌∷◌, length, Status, ok, not_found, duplicate, oom, size_mod,
  Allocator,
}
use seqc.Order.{Compare, Ordering-cases}
use seqc.Order.Sorted as Sorted
use seqc.Order.Sorted.{
  IsSorted, member, Below-prefix, member_before, member_after, IsSorted-left, IsSorted-right,
  add-IsSorted, remove-IsSorted, length-add, length-remove, add_present, remove_absent,
}
use seqc.Order.Sets.{taken_length, added_length}
use seqc.Avl.{Tree, leaf, node, Avl, node_alloc_size}
use seqc.Avl.Api.{find, contains, add, remove, do_insert, do_remove}
use seqc.Avl.Balance.{IsAvl}
use seqc.Avl.Inorder.{to_list}
use seqc.Avl.Insert.{do_insert-Grown, do_insert-Inserted}
use seqc.Avl.Remove.{do_remove-Shrunk, do_remove-Removed}

module _ {ℓ} {A : Type ℓ} ⦃o : Compare A⦄ where
  -- A balanced search tree that knows how many elements it has.
  pub record IsValid (t : Avl A) : Type 0 where
    pub balanced : IsAvl t.root
    pub ordered : IsSorted (to_list t.root)
    pub counted : t.len ≡ length (to_list t.root)
    pub bounded : t.len < size_mod

  find_lem : (t : Tree A) (x : A) → IsSorted (to_list t) → find t x ≡ member x (to_list t)
  unfolding find to_list member
  find_lem leaf x s = refl
  find_lem (node l y ht r) x s =
      let xs = to_list l in
      let ys = to_list r in
      elim (Ordering-cases (o.cmp x y)) [
        | inl e ↦
            rw (e, find)
              (find_lem l x (IsSorted-left xs (y ∷ ys) s) ∙ sym (member_before x xs y ys e s))
        | inr (inl e) ↦
            let found : member x (y ∷ ys) ≡ true = rw (e, member) in
            rw (e, find)
              (sym (
                member_after x xs (y ∷ ys) (Below-prefix x xs y ys s (λ f. cc (sym e ∙ f)))
                ∙ found))
        | inr (inr e) ↦
            let skip : member x (y ∷ ys) ≡ member x ys = rw (e, member) in
            rw (e, find)
              (find_lem r x (IsSorted-right xs (y ∷ ys) s).1
                ∙ sym (
                    member_after x xs (y ∷ ys) (Below-prefix x xs y ys s (λ f. cc (sym e ∙ f)))
                    ∙ skip))
      ]

  -- avl_contains on a valid tree is true exactly if one of its elements compares equal.
  pub avl_contains_lem :
      (t : Avl A) (x : A) → IsValid t → contains (some t) (some x) ≡ member x (to_list t.root)
  unfolding contains
  avl_contains_lem t x v = find_lem t.root x v.ordered

module _ {ℓ κ} {A : Type ℓ} {H : Type κ} where
  added_status :
      (m b : Bool) (t : Avl A) (h : H)
      → b ≡ not m
      → ◌≡◌ {A = Status × Option (Avl A) × H}
          ((if b then ok else duplicate), some t, h)
          ((if m then duplicate else ok), some t, h)
  added_status true b t h e = ap (λ b. ((if b then ok else duplicate), some t, h)) e
  added_status false b t h e = ap (λ b. ((if b then ok else duplicate), some t, h)) e

module _ {ℓ κ} {A : Type ℓ} {H : Type κ} ⦃o : Compare A⦄ ⦃al : Allocator H⦄ where
  abbrev pub Added : Avl A → A → H → Status × Option (Avl A) × H → Type (ℓ ⊔ κ)
  Added t x h result =
      ((result ≡ (oom, some t, h)) × (al.alloc (node_alloc_size t.elem_size) h ≡ none))
      ⊎ ((t' : Avl A) × (h' : H) × (result
            ≡ ((if member x (to_list t.root) then duplicate else ok), some t', h'))
          × IsValid t'
          × (to_list t'.root ≡ Sorted.add x (to_list t.root))
          × (t'.elem_size ≡ t.elem_size))

  -- avl_add on a valid tree whose len can grow either fails because the allocator refuses the node,
  -- with tree and heap as they were, or leaves a valid tree whose ascending elements are those
  -- before with the new one, and reports SEQC_DUPLICATE exactly if an equal element was there.
  pub avl_add-Added :
      (t : Avl A) (x : A) (h : H)
      → IsValid t
      → t.len + 1 < size_mod
      → Added t x h (add (some t) (some x) h)
  unfolding add
  avl_add-Added t x h v room =
      let i = do_insert t.elem_size t.root x h in
      elim (do_insert-Inserted t.elem_size t.root x h v.ordered) [
        | inl (same, refused) ↦ inl (rw (same, add), refused)
        | inr (given, elements, fresh) ↦
            let t' = record t {
              root = i.tree;
              len = if i.inserted then (t.len + 1) % size_mod else t.len;
            } in
            let xs = to_list t.root in
            let size = added_length x xs t.len i.inserted room v.ordered v.counted fresh in
            inr (
              t',
              i.heap,
              rw (given, add) (added_status (member x xs) i.inserted t' i.heap fresh),
              record {
                balanced = (do_insert-Grown t.elem_size t.root x h v.balanced).0;
                ordered = rw elements (add-IsSorted x xs v.ordered);
                counted = rw elements size.0;
                bounded = size.1;
              },
              elements,
              refl,
            )
      ]

  abbrev pub Taken : Avl A → A → Status × Option (Avl A) × H → Type (ℓ ⊔ κ)
  Taken t x result =
      (t' : Avl A) × (h' : H) × (result
        ≡ ((if member x (to_list t.root) then ok else not_found), some t', h'))
      × IsValid t'
      × (to_list t'.root ≡ Sorted.remove x (to_list t.root))
      × (t'.elem_size ≡ t.elem_size)

  -- avl_remove on a valid tree leaves a valid tree whose ascending elements are those before
  -- without the equal one, and reports SEQC_OK exactly if there was one.
  pub avl_remove-Taken :
      (t : Avl A) (x : A) (h : H) → IsValid t → Taken t x (remove (some t) (some x) h)
  unfolding remove
  avl_remove-Taken t x h v =
      let d = do_remove t.elem_size t.root x h in
      let (elements, found) = do_remove-Removed t.elem_size t.root x h v.ordered in
      let t' = record t { root = d.tree; len = if d.removed then t.len - 1 else t.len } in
      let xs = to_list t.root in
      let size = taken_length x xs t.len d.removed v.ordered v.counted found in
      (
        t',
        d.heap,
        ap (λ b. ((if b then ok else not_found), some t', d.heap)) found,
        record {
          balanced = (do_remove-Shrunk t.elem_size t.root x h v.balanced).0;
          ordered = rw elements (remove-IsSorted x xs v.ordered);
          counted = rw elements size.0;
          bounded = omega (arith, size.1, v.bounded);
        },
        elements,
        refl,
      )
