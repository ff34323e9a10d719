-- ===== src/Avl/Api.antt =====
-- The operations of src/avl/avl.c that search, or that allocate and free nodes.
use Prim.Native.Nat.Ordering.{lt, eq, gt}
use seqc.Prelude.{
  ℕ, ◌+◌, ◌-◌, ◌%◌, Bool, true, false, Option, none, some, if◌then◌else◌, Status, ok, not_found,
  duplicate, invalid, size_mod, Allocator,
}
use seqc.Order.{Compare}
use seqc.Avl.{Tree, leaf, node, Avl, sizeof_avl, node_alloc_size, rebalance, min_of}

-- What `do_insert` leaves: the subtree, the two flags, and the heap.
pub record Insertion {ℓ κ} (A : Type ℓ) (H : Type κ) : Type (ℓ ⊔ κ) where
  pub tree : Tree A
  pub inserted : Bool
  pub oom : Bool
  pub heap : H

-- What `do_remove` leaves.
pub record Removal {ℓ κ} (A : Type ℓ) (H : Type κ) : Type (ℓ ⊔ κ) where
  pub tree : Tree A
  pub removed : Bool
  pub heap : H

module _ {ℓ} {A : Type ℓ} ⦃o : Compare A⦄ where
  -- The `while (cur)` loop of `avl_contains`.
  unfoldable pub find : Tree A → A → Bool
  find leaf x = false
  find (node l y h r) x = elim (o.cmp x y) [ lt ↦ find l x | gt ↦ find r x | eq ↦ true ]

  unfoldable pub contains : Option (Avl A) → Option A → Bool
  unfolding find
  contains none x = false
  contains (some t) none = false
  contains (some t) (some x) = find t.root x

module _ {ℓ κ} {A : Type ℓ} {H : Type κ} ⦃al : Allocator H⦄ where
  -- Without memory for the tree's struct, NULL.
  unfoldable pub create : ℕ → H → Option (Avl A) × H
  create size h = elim (al.alloc (sizeof_avl al.handle_size) h) [
    | none ↦ (none, h)
    | some h' ↦ (some (record { root = leaf; len = 0; elem_size = size }), h')
  ]

  unfoldable pub free_subtree : ℕ → Tree A → H → H
  free_subtree size leaf h = h
  free_subtree size (node l x ht r) h =
      al.free (node_alloc_size size) (free_subtree size r (free_subtree size l h))

  unfoldable pub clear : Option (Avl A) → H → Option (Avl A) × H
  unfolding free_subtree
  clear none h = (none, h)
  clear (some t) h = (some (record t { root = leaf; len = 0 }), free_subtree t.elem_size t.root h)

  unfoldable pub destroy : Option (Avl A) → H → H
  unfolding free_subtree
  destroy none h = h
  destroy (some t) h = al.free (sizeof_avl al.handle_size) (free_subtree t.elem_size t.root h)

module _ {ℓ κ} {A : Type ℓ} {H : Type κ} ⦃o : Compare A⦄ ⦃al : Allocator H⦄ where
  -- `size` is `t->elem_size`. The new node is `make_node`'s.
  unfoldable pub do_insert : ℕ → Tree A → A → H → Insertion A H
  do_insert size leaf x h = elim (al.alloc (node_alloc_size size) h) [
    | none ↦ record { tree = leaf; inserted = false; oom = true; heap = h }
    | some h' ↦ record { tree = node leaf x 1 leaf; inserted = true; oom = false; heap = h' }
  ]
  do_insert size (node l y ht r) x h = elim (o.cmp x y) [
    | lt ↦
        let i = do_insert size l x h in
        if i.oom
        then record i { tree = node l y ht r }
        else record i { tree = rebalance (node i.tree y ht r) }
    | gt ↦
        let i = do_insert size r x h in
        if i.oom
        then record i { tree = node l y ht r }
        else record i { tree = rebalance (node l y ht i.tree) }
    | eq ↦ record { tree = node l y ht r; inserted = false; oom = false; heap = h }
  ]

  -- `avl_add`. `new_root` is NULL only where the allocator refused.
  unfoldable pub add : Option (Avl A) → Option A → H → Status × Option (Avl A) × H
  unfolding do_insert
  add none x h = (invalid, none, h)
  add (some t) none h = (invalid, some t, h)
  add (some t) (some x) h =
      let i = do_insert t.elem_size t.root x h in
      if i.oom then (Status.oom, some t, i.heap) else (
        (if i.inserted then ok else duplicate),
        some (record t {
          root = i.tree;
          len = if i.inserted then (t.len + 1) % size_mod else t.len;
        }),
        i.heap,
      )

  unfoldable pub do_remove : ℕ → Tree A → A → H → Removal A H
  unfolding min_of
  do_remove size leaf x h = record { tree = leaf; removed = false; heap = h }
  do_remove size (node l y ht r) x h = elim (o.cmp x y) [
    | lt ↦ let d = do_remove size l x h in record d { tree = rebalance (node d.tree y ht r) }
    | gt ↦ let d = do_remove size r x h in record d { tree = rebalance (node l y ht d.tree) }
    | eq ↦
        let freed = al.free (node_alloc_size size) h in
        let succ = min_of r y in
        let d = do_remove size r succ h in
        let two : Removal A H = record {
          tree = rebalance (node l succ ht d.tree);
          removed = true;
          heap = d.heap;
        } in
        let only_left : Removal A H = record { tree = l; removed = true; heap = freed } in
        elim l [
          | leaf ↦ record { tree = r; removed = true; heap = freed }
          | node _ _ _ _ ↦ elim r [ leaf ↦ only_left | node _ _ _ _ ↦ two ]
        ]
  ]

  unfoldable pub remove : Option (Avl A) → Option A → H → Status × Option (Avl A) × H
  unfolding do_remove
  remove none x h = (invalid, none, h)
  remove (some t) none h = (invalid, some t, h)
  remove (some t) (some x) h =
      let d = do_remove t.elem_size t.root x h in
      (
        (if d.removed then ok else not_found),
        some (record t { root = d.tree; len = if d.removed then t.len - 1 else t.len }),
        d.heap,
      )
