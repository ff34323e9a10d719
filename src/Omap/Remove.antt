-- ===== src/Omap/Remove.antt =====
-- omap_remove of src/omap/omap.c against maps.
use seqc.Prelude.{
  ℕ, ◌+◌, ◌-◌, ◌%◌, ◌<◌, ◌≤◌, ◌≡◌, refl, sym, ap, ◌∙◌, Bool, true, false, inl, inr, arith, Option,
  none, some, if◌then◌else◌, List, [], ◌∷◌, length, Status, ok, not_found, size_mod, Allocator,
}
use seqc.Order.{Compare, Ordering-cases}
use seqc.Order.Sorted.{member, remove-IsSorted}
use seqc.Order.Sets.{taken_length}
use seqc.Avl.{Tree, leaf, node, node_alloc_size}
use seqc.Avl.Balance.{IsAvl}
use seqc.Avl.Inorder.{to_list}
use seqc.Avl.Remove.{do_remove-Shrunk, do_remove-Removed}
use seqc.Omap.{Entry, Omap, Removal, node_sz, do_remove, remove}
use seqc.Omap.Entries.{by_key, IsAscending, lookup, delete}
use seqc.Omap.Puts.{delete_lem}
use seqc.Omap.Set.{has_key}
use seqc.Omap.Delete.{do_remove-Same}
use seqc.Omap.Methods.{IsValid, entries}

-- The size of an element whose node in src/avl/avl.c is as large as `size`.
elem_size_of : ℕ → ℕ
elem_size_of size = (size + (size_mod - 32)) % size_mod

alloc-elem_size_of : (size : ℕ) → size < size_mod → node_alloc_size (elem_size_of size) ≡ size
unfolding elem_size_of
alloc-elem_size_of size small = omega arith

abbrev is_some {ℓ} : {A : Type ℓ} → Option A → Bool
is_some none = false
is_some (some x) = true

-- The key is in the map.
abbrev pub has {ℓ κ} : {K : Type ℓ} {V : Type κ} ⦃o : Compare K⦄ → K → List (Entry K V) → Bool
has k es = is_some (lookup k es)

module _ {ℓ κ} {K : Type ℓ} {V : Type κ} ⦃o : Compare K⦄ where
  has_key_lem : (k : K) (v : V) (es : List (Entry K V)) → has_key k v es ≡ has k es
  unfolding lookup member
  has_key_lem k v [] = refl
  has_key_lem k v (e ∷ es) = elim (Ordering-cases (o.cmp k e.key)) [
    | inl c ↦
        let skip : lookup k (e ∷ es) ≡ lookup k es = rw (c, lookup) in
        rw (c, member) (has_key_lem k v es ∙ sym (ap is_some skip))
    | inr (inl c) ↦
        let found : lookup k (e ∷ es) ≡ some e.value = rw (c, lookup) in
        rw (c, member) (sym (ap is_some found))
    | inr (inr c) ↦
        let skip : lookup k (e ∷ es) ≡ lookup k es = rw (c, lookup) in
        rw (c, member) (has_key_lem k v es ∙ sym (ap is_some skip))
  ]

module _ {ℓ κ μ} {K : Type ℓ} {V : Type κ} {H : Type μ} ⦃o : Compare K⦄ ⦃al : Allocator H⦄ where
  abbrev pub Taken : Omap K V → K → Status × Option (Omap K V) × H → Type (ℓ ⊔ κ ⊔ μ)
  Taken m k result =
      (m' : Omap K V) × (h' : H) × (result
        ≡ ((if has k (entries m) then ok else not_found), some m', h'))
      × IsValid m'
      × (entries m' ≡ delete k (entries m))
      × (m'.key_size ≡ m.key_size)
      × (m'.val_size ≡ m.val_size)

  -- What `do_remove` leaves of a valid tree of `n` entries.
  record Removes (t : Tree (Entry K V)) (k : K) (n : ℕ) (d : Removal K V H) : Type (ℓ ⊔ κ) where
    balanced : IsAvl d.tree
    elements : to_list d.tree ≡ delete k (to_list t)
    found : d.removed ≡ has k (to_list t)
    ordered : IsAscending (to_list d.tree)
    counted : (if d.removed then n - 1 else n) ≡ length (to_list d.tree)
    fewer : (if d.removed then n - 1 else n) ≤ n

  do_remove-Removes :
      (size n : ℕ) (t : Tree (Entry K V)) (k : K) (h : H)
      → size < size_mod
      → IsAvl t
      → IsAscending (to_list t)
      → n ≡ length (to_list t)
      → Removes t k n (do_remove size t k h)
  unfolding do_remove to_list delete lookup
  do_remove-Removes size n leaf k h small balanced ordered count = record {
    balanced = tt;
    elements = refl;
    found = refl;
    ordered = tt;
    counted = count;
    fewer = omega arith;
  }
  do_remove-Removes size n (node l e ht r) k h small balanced ordered count =
      let t = node l e ht r in
      let es = to_list t in
      let i = elem_size_of size in
      let x : Entry K V = record { key = k; value = e.value } in
      let (tree, removed, heap) =
        rw (alloc-elem_size_of size small) at (do_remove-Same i t k e.value h) in
      let (elements, found) = do_remove-Removed ⦃o = by_key V⦄ i t x h ordered in
      let left = ap to_list tree ∙ elements in
      let size' = taken_length ⦃o = by_key V⦄ x es n _ ordered count (removed ∙ found) in
      record {
        balanced = rw tree (do_remove-Shrunk ⦃o = by_key V⦄ i t x h balanced).0;
        elements = left ∙ sym (delete_lem k e.value es);
        found = removed ∙ found ∙ has_key_lem k e.value es;
        ordered = rw left (remove-IsSorted ⦃o = by_key V⦄ x es ordered);
        counted = rw left size'.0;
        fewer = size'.1;
      }

  -- omap_remove on a valid map leaves a valid map whose ascending entries are those before without
  -- the key, and reports SEQC_OK exactly if the key was there.
  pub omap_remove-Taken :
      (m : Omap K V) (k : K) (h : H) → IsValid m → Taken m k (remove (some m) (some k) h)
  unfolding remove
  omap_remove-Taken m k h valid =
      let size = node_sz m.key_size m.val_size in
      let d = do_remove size m.root k h in
      let p =
        do_remove-Removes size m.len m.root k h (omega arith) valid.balanced valid.ordered
          valid.counted in
      let m' : Omap K V = record m {
        root = d.tree;
        len = if d.removed then m.len - 1 else m.len;
      } in
      (
        m',
        d.heap,
        ap (λ b. ((if b then ok else not_found), some m', d.heap)) p.found,
        record {
          balanced = p.balanced;
          ordered = p.ordered;
          counted = p.counted;
          bounded = omega (arith, p.fewer, valid.bounded);
        },
        p.elements,
        refl,
        refl,
      )
