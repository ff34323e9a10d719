-- ===== src/Bstree/Methods.antt =====
-- The public operations of src/bstree/bstree.c against ascending lists.
use seqc.Prelude.{
  ℕ, ◌+◌, ◌-◌, ◌%◌, ◌<◌, ◌≡◌, refl, sym, ap, ◌∙◌, not, ◌⊎◌, inl, inr, arith, Option, none, some,
  if◌then◌else◌, Bool-cases, ◌∷◌, length, Status, ok, not_found, duplicate, oom, size_mod,
  Allocator,
}
use seqc.Order.{Compare}
use seqc.Order.Sorted as Sorted
use seqc.Order.Sorted.{IsSorted, member, add-IsSorted, remove-IsSorted}
use seqc.Order.Sets.{taken_length, added_length, head, last, last_append}
use seqc.Bstree.{
  Tree, leaf, node, Bstree, node_alloc_size, contains, add, remove, do_remove, max_from, min_ptr,
  max_ptr,
}
use seqc.Bstree.Refine.{to_list, first, find_lem, attach-Attached}
use seqc.Bstree.Remove.{do_remove-Cut}

module _ {ℓ} {A : Type ℓ} ⦃o : Compare A⦄ where
  -- A search tree that knows how many elements it has.
  pub record IsValid (t : Bstree A) : Type 0 where
    pub ordered : IsSorted (to_list t.root)
    pub counted : t.len ≡ length (to_list t.root)
    pub bounded : t.len < size_mod

  -- bstree_contains on a valid tree is true exactly if one of its elements compares equal.
  pub bstree_contains_lem :
      (t : Bstree A) (x : A) → IsValid t → contains (some t) (some x) ≡ member x (to_list t.root)
  unfolding contains
  bstree_contains_lem t x v = find_lem t.root x v.ordered

module _ {ℓ κ} {A : Type ℓ} {H : Type κ} ⦃o : Compare A⦄ ⦃al : Allocator H⦄ where
  -- What `bstree_add` leaves: all as it was where the allocator refuses the node, and otherwise a
  -- valid tree of the elements with `x`, and whether it was new.
  abbrev pub Added : Bstree A → A → H → Status × Option (Bstree A) × H → Type (ℓ ⊔ κ)
  Added t x h result =
      ((result ≡ (oom, some t, h)) × (al.alloc (node_alloc_size t.elem_size) h ≡ none))
      ⊎ ((t' : Bstree A) × (h' : H) × (result
            ≡ ((if member x (to_list t.root) then duplicate else ok), some t', h'))
          × IsValid t'
          × (to_list t'.root ≡ Sorted.add x (to_list t.root))
          × (t'.elem_size ≡ t.elem_size))

  -- bstree_add on a valid tree whose len can grow either fails because the allocator refuses the
  -- node, with tree and heap as they were, or leaves a valid tree whose ascending elements are
  -- those before with the new one, and reports SEQC_DUPLICATE exactly if an equal element was
  -- there.
  pub bstree_add-Added :
      (t : Bstree A) (x : A) (h : H)
      → IsValid t
      → t.len + 1 < size_mod
      → Added t x h (add (some t) (some x) h)
  unfolding add
  bstree_add-Added t x h v room = elim (attach-Attached t.elem_size t.root x h v.ordered) [
    | inl (same, refused) ↦ inl (rw (same, add), refused)
    | inr (root, h', given, elements) ↦
        let xs = to_list t.root in
        let fresh = not (member x xs) in
        let size = added_length x xs t.len fresh room v.ordered v.counted refl in
        let t' = record t { root = root; len = if fresh then (t.len + 1) % size_mod else t.len } in
        inr (
          t',
          h',
          elim (Bool-cases (member x xs)) [
            | inl m ↦ rw (given, add, m)
            | inr m ↦ rw (given, add, m)
          ],
          record {
            ordered = rw elements (add-IsSorted x xs v.ordered);
            counted = rw elements size.0;
            bounded = size.1;
          },
          elements,
          refl,
        )
  ]

  -- What `bstree_remove` leaves: a valid tree of the elements without the one equal to `x`, and
  -- whether there was one.
  abbrev pub Taken : Bstree A → A → Status × Option (Bstree A) × H → Type (ℓ ⊔ κ)
  Taken t x result =
      (t' : Bstree A) × (h' : H) × (result
        ≡ ((if member x (to_list t.root) then ok else not_found), some t', h'))
      × IsValid t'
      × (to_list t'.root ≡ Sorted.remove x (to_list t.root))
      × (t'.elem_size ≡ t.elem_size)

  -- bstree_remove on a valid tree leaves a valid tree whose ascending elements are those before
  -- without the equal one, and reports SEQC_OK exactly if there was one.
  pub bstree_remove-Taken :
      (t : Bstree A) (x : A) (h : H) → IsValid t → Taken t x (remove (some t) (some x) h)
  unfolding remove
  bstree_remove-Taken t x h v =
      let d = do_remove t.elem_size t.root x h in
      let (elements, found) = do_remove-Cut t.elem_size t.root x h v.ordered in
      let t' = record t { root = d.tree; len = if d.removed then t.len - 1 else t.len } in
      let xs = to_list t.root in
      let size = taken_length x xs t.len d.removed v.ordered v.counted found in
      (
        t',
        d.heap,
        ap (λ b. ((if b then ok else not_found), some t', d.heap)) found,
        record {
          ordered = rw elements (remove-IsSorted x xs v.ordered);
          counted = rw elements size.0;
          bounded = omega (arith, size.1, v.bounded);
        },
        elements,
        refl,
      )

module _ {ℓ} {A : Type ℓ} where
  last_max : (x : A) (r : Tree A) → last (x ∷ to_list r) ≡ some (max_from x r)
  unfolding last max_from to_list
  last_max x leaf = refl
  last_max x (node l y r) = last_append (x ∷ to_list l) y (to_list r) ∙ last_max y r

  -- bstree_min_ptr finds the first element in order and bstree_max_ptr the last, and both NULL in
  -- an empty tree.
  pub bstree_ends :
      (t : Bstree A)
      → (min_ptr (some t) ≡ head (to_list t.root)) × (max_ptr (some t) ≡ last (to_list t.root))
  unfolding min_ptr max_ptr to_list head last
  bstree_ends t = at_root t.root t.len t.elem_size
    where
      at_root :
          (root : Tree A) (n size : ℕ)
          → let t : Bstree A = record { root = root; len = n; elem_size = size } in
            (min_ptr (some t) ≡ head (to_list root)) × (max_ptr (some t) ≡ last (to_list root))
      at_root leaf n size = (refl, refl)
      at_root (node l x r) n size =
          let (ys, e) = first l x (to_list r) in
          (sym (ap head e), sym (last_append (to_list l) x (to_list r) ∙ last_max x r))
