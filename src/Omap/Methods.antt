-- ===== src/Omap/Methods.antt =====
-- omap_get and omap_set of src/omap/omap.c against maps.
use seqc.Prelude.{
  ◌+◌, ◌%◌, ◌<◌, ◌≡◌, refl, sym, ◌∙◌, ◌⊎◌, inl, inr, Option, none, some, if◌then◌else◌, List, ◌∷◌,
  length, Status, ok, oom, size_mod, Allocator,
}
use seqc.Order.{Compare, Ordering-cases}
use seqc.Order.Sorted.{Below-prefix, IsSorted-left, IsSorted-right}
use seqc.Order.Sets.{added_length}
use seqc.Avl.{Tree, leaf, node}
use seqc.Avl.Balance.{IsAvl}
use seqc.Avl.Inorder.{to_list}
use seqc.Omap.{Entry, Omap, node_sz, find, get_ptr, do_set, set}
use seqc.Omap.Entries.{by_key, IsAscending, lookup, put}
use seqc.Omap.Puts.{lookup_before, lookup_after, put-IsAscending, length-put}
use seqc.Omap.Set.{do_set-Grown, do_set_lem}

module _ {ℓ κ} {K : Type ℓ} {V : Type κ} ⦃o : Compare K⦄ where
  -- A balanced search tree that knows how many entries it has.
  pub record IsValid (m : Omap K V) : Type 0 where
    pub balanced : IsAvl m.root
    pub ordered : IsAscending (to_list m.root)
    pub counted : m.len ≡ length (to_list m.root)
    pub bounded : m.len < size_mod

  -- The map that `m` stands for.
  abbrev pub entries : Omap K V → List (Entry K V)
  entries m = to_list m.root

  find_lem :
      (t : Tree (Entry K V)) (k : K) → IsAscending (to_list t) → find t k ≡ lookup k (to_list t)
  unfolding find to_list lookup
  find_lem leaf k s = refl
  find_lem (node l y ht r) k s =
      let xs = to_list l in
      let ys = to_list r in
      elim (Ordering-cases (o.cmp k y.key)) [
        | inl e ↦
            rw (e, find)
              (find_lem l k (IsSorted-left ⦃o = by_key V⦄ xs (y ∷ ys) s)
                ∙ sym (lookup_before k xs y ys e s))
        | inr (inl e) ↦
            let x : Entry K V = record { key = k; value = y.value } in
            let found : lookup k (y ∷ ys) ≡ some y.value = rw (e, lookup) in
            rw (e, find)
              (sym (
                lookup_after k xs (y ∷ ys)
                  (Below-prefix ⦃o = by_key V⦄ x xs y ys s (λ f. cc (sym e ∙ f)))
                ∙ found))
        | inr (inr e) ↦
            let x : Entry K V = record { key = k; value = y.value } in
            let skip : lookup k (y ∷ ys) ≡ lookup k ys = rw (e, lookup) in
            rw (e, find)
              (find_lem r k (IsSorted-right ⦃o = by_key V⦄ xs (y ∷ ys) s).1
                ∙ sym (
                    lookup_after k xs (y ∷ ys)
                      (Below-prefix ⦃o = by_key V⦄ x xs y ys s (λ f. cc (sym e ∙ f)))
                    ∙ skip))
      ]

  -- omap_get_ptr reads the map.
  pub omap_get_ptr_lem :
      (m : Omap K V) (k : K) → IsValid m → get_ptr (some m) (some k) ≡ lookup k (entries m)
  unfolding get_ptr
  omap_get_ptr_lem m k valid = find_lem m.root k valid.ordered

module _ {ℓ κ μ} {K : Type ℓ} {V : Type κ} {H : Type μ} ⦃o : Compare K⦄ ⦃al : Allocator H⦄ where
  abbrev pub Written : Omap K V → K → V → H → Status × Option (Omap K V) × H → Type (ℓ ⊔ κ ⊔ μ)
  Written m k v h result =
      ((result ≡ (oom, some m, h)) × (al.alloc (node_sz m.key_size m.val_size) h ≡ none))
      ⊎ ((m' : Omap K V) × (h' : H) × (result ≡ (ok, some m', h'))
          × IsValid m'
          × (entries m' ≡ put k v (entries m))
          × (m'.key_size ≡ m.key_size)
          × (m'.val_size ≡ m.val_size))

  -- omap_set on a valid map whose len can grow either fails because the allocator refuses the node,
  -- with map and heap as they were, or leaves a valid map whose ascending entries are those before
  -- with the value under the key; a key that compares equal stays as it is.
  pub omap_set-Written :
      (m : Omap K V) (k : K) (v : V) (h : H)
      → IsValid m
      → m.len + 1 < size_mod
      → Written m k v h (set (some m) (some k) (some v) h)
  unfolding set
  omap_set-Written m k v h valid room =
      let size = node_sz m.key_size m.val_size in
      let s = do_set size m.root k v h in
      let es = entries m in
      elim (do_set_lem size m.root k v h valid.ordered) [
        | inl (same, refused) ↦ inl (rw (same, set), refused)
        | inr (given, elements, fresh) ↦
            let m' : Omap K V = record m {
              root = s.tree;
              len = if s.inserted then (m.len + 1) % size_mod else m.len;
            } in
            let x : Entry K V = record { key = k; value = v } in
            let count =
              added_length ⦃o = by_key V⦄ x es m.len s.inserted room valid.ordered valid.counted
                fresh in
            inr (
              m',
              s.heap,
              rw (given, set) refl,
              record {
                balanced = (do_set-Grown size m.root k v h valid.balanced).0;
                ordered = rw elements (put-IsAscending k v es valid.ordered);
                counted = rw elements (count.0 ∙ sym (length-put k v es));
                bounded = count.1;
              },
              elements,
              refl,
              refl,
            )
      ]
