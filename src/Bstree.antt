-- ===== src/Bstree.antt =====
-- src/bstree/bstree.c: the unbalanced search tree `bstree_t`, a set of elements under a client's
-- order.
--
-- A node pointer is a `Tree A` (`leaf` is NULL): the tree owns its nodes and each is reached from
-- one place. A handle `bstree_t *` is an `Option (Bstree A)`, a pointer to an element an `Option A`.
pub mod Refine
pub mod Remove
pub mod Iter
pub mod Methods
mod Tests
use Prim.Native.Nat.Ordering.{lt, eq, gt}
use seqc.Prelude.{
  ℕ, ◌+◌, ◌-◌, ◌%◌, Bool, true, false, Option, none, some, if◌then◌else◌, ltb, Status, ok,
  not_found, duplicate, oom, invalid, size_mod, Allocator, copy_out, ◌==◌,
}
use seqc.Order.{Compare}

pub data Tree {ℓ} (A : Type ℓ) : Type ℓ where
  leaf : Tree A
  node : Tree A → A → Tree A → Tree A

pub record Bstree {ℓ} (A : Type ℓ) : Type ℓ where
  pub root : Tree A
  pub len : ℕ
  pub elem_size : ℕ

-- What `do_remove` leaves.
pub record Removal {ℓ κ} (A : Type ℓ) (H : Type κ) : Type (ℓ ⊔ κ) where
  pub tree : Tree A
  pub removed : Bool
  pub heap : H

-- `sizeof(bstree_t)`, with an `allocator_t` of `handle` bytes.
abbrev pub sizeof_bstree : ℕ → ℕ
sizeof_bstree handle = 32 + handle

-- `node_alloc_size`, with 16 bytes of header and 16 for SEQC_MAX_ALIGN.
abbrev pub node_alloc_size : ℕ → ℕ
node_alloc_size elem_size = (16 + elem_size) % size_mod

module _ {ℓ} {A : Type ℓ} where
  -- The data of the leftmost node below a node with left child `l` and element `x`.
  pub min_from : Tree A → A → A
  min_from leaf x = x
  min_from (node l y r) x = min_from l y

  pub max_from : A → Tree A → A
  max_from x leaf = x
  max_from x (node l y r) = max_from y r

  -- The same below the root of a tree; for the empty tree there is none, and `x` is given back.
  pub min_of : Tree A → A → A
  unfolding min_from
  min_of leaf x = x
  min_of (node l y r) x = min_from l y

  pub min_ptr : Option (Bstree A) → Option A
  unfolding min_from
  min_ptr none = none
  min_ptr (some t) = elim t.root [ leaf ↦ none | node l x r ↦ some (min_from l x) ]

  pub max_ptr : Option (Bstree A) → Option A
  unfolding max_from
  max_ptr none = none
  max_ptr (some t) = elim t.root [ leaf ↦ none | node l x r ↦ some (max_from x r) ]

  pub min : Option (Bstree A) → Status × Option A
  min none = (invalid, none)
  min (some t) = copy_out (min_ptr (some t))

  pub max : Option (Bstree A) → Status × Option A
  max none = (invalid, none)
  max (some t) = copy_out (max_ptr (some t))

  pub is_empty : Option (Bstree A) → Bool
  is_empty none = true
  is_empty (some t) = t.len == 0

  pub len : Option (Bstree A) → ℕ
  len none = 0
  len (some t) = t.len

  pub height_node : Tree A → ℕ
  height_node leaf = 0
  height_node (node left x right) =
      let l = height_node left in let r = height_node right in 1 + (if ltb r l then l else r)

  pub height : Option (Bstree A) → ℕ
  unfolding height_node
  height none = 0
  height (some t) = height_node t.root

module _ {ℓ} {A : Type ℓ} ⦃o : Compare A⦄ where
  -- The `while (cur)` loop of `bstree_contains`.
  pub find : Tree A → A → Bool
  find leaf x = false
  find (node l y r) x = elim (o.cmp x y) [ lt ↦ find l x | gt ↦ find r x | eq ↦ true ]

  pub contains : Option (Bstree A) → Option A → Bool
  unfolding find
  contains none x = false
  contains (some t) none = false
  contains (some t) (some x) = find t.root x

module _ {ℓ κ} {A : Type ℓ} {H : Type κ} ⦃al : Allocator H⦄ where
  pub create : ℕ → H → Option (Bstree A) × H
  create size h = elim (al.alloc (sizeof_bstree al.handle_size) h) [
    | none ↦ (none, h)
    | some h' ↦ (some (record { root = leaf; len = 0; elem_size = size }), h')
  ]

  pub free_subtree : ℕ → Tree A → H → H
  free_subtree size leaf h = h
  free_subtree size (node l x r) h =
      al.free (node_alloc_size size) (free_subtree size r (free_subtree size l h))

  pub clear : Option (Bstree A) → H → Option (Bstree A) × H
  unfolding free_subtree
  clear none h = (none, h)
  clear (some t) h = (some (record t { root = leaf; len = 0 }), free_subtree t.elem_size t.root h)

  pub destroy : Option (Bstree A) → H → H
  unfolding free_subtree
  destroy none h = h
  destroy (some t) h = al.free (sizeof_bstree al.handle_size) (free_subtree t.elem_size t.root h)

module _ {ℓ κ} {A : Type ℓ} {H : Type κ} ⦃o : Compare A⦄ ⦃al : Allocator H⦄ where
  -- The loop of `bstree_add` from the subtree at `*cur` on, and `make_node` where it ends.
  pub attach : ℕ → Tree A → A → H → Status × Tree A × H
  attach size leaf x h = elim (al.alloc (node_alloc_size size) h) [
    | none ↦ (oom, leaf, h)
    | some h' ↦ (ok, node leaf x leaf, h')
  ]
  attach size (node l y r) x h = elim (o.cmp x y) [
    | lt ↦ let (st, l', h') = attach size l x h in (st, node l' y r, h')
    | gt ↦ let (st, r', h') = attach size r x h in (st, node l y r', h')
    | eq ↦ (duplicate, node l y r, h)
  ]

  pub add : Option (Bstree A) → Option A → H → Status × Option (Bstree A) × H
  unfolding attach
  add none x h = (invalid, none, h)
  add (some t) none h = (invalid, some t, h)
  add (some t) (some x) h =
      let (st, root, h') = attach t.elem_size t.root x h in
      (
        st,
        some (record t { root = root; len = elim st [ ok ↦ (t.len + 1) % size_mod | _ ↦ t.len ] }),
        h',
      )

  pub do_remove : ℕ → Tree A → A → H → Removal A H
  unfolding min_of
  do_remove size leaf x h = record { tree = leaf; removed = false; heap = h }
  do_remove size (node l y r) x h = elim (o.cmp x y) [
    | lt ↦ let d = do_remove size l x h in record d { tree = node d.tree y r }
    | gt ↦ let d = do_remove size r x h in record d { tree = node l y d.tree }
    | eq ↦
        let freed = al.free (node_alloc_size size) h in
        let succ = min_of r y in
        let d = do_remove size r succ h in
        let two : Removal A H = record {
          tree = node l succ d.tree;
          removed = true;
          heap = d.heap;
        } in
        let only_left : Removal A H = record { tree = l; removed = true; heap = freed } in
        elim l [
          | leaf ↦ record { tree = r; removed = true; heap = freed }
          | node _ _ _ ↦ elim r [ leaf ↦ only_left | node _ _ _ ↦ two ]
        ]
  ]

  pub remove : Option (Bstree A) → Option A → H → Status × Option (Bstree A) × H
  unfolding do_remove
  remove none x h = (invalid, none, h)
  remove (some t) none h = (invalid, some t, h)
  remove (some t) (some x) h =
      let d = do_remove t.elem_size t.root x h in
      (
        (if d.removed then ok else not_found),
        some (record t { root = d.tree; len = if d.removed then t.len - 1 else t.len }),
        d.heap,
      )
