-- ===== src/Omap.antt =====
-- src/omap/omap.c: the ordered map `omap_t`, a balanced search tree of keys with values.
--
-- A node pointer is a tree of entries: the key and the value that stand behind the node's header.
-- The balance functions of the file, from node_height to rebalance, and min_node are those of
-- src/avl/avl.c word for word, and so are they here. A handle `omap_t *` is an `Option (Omap K V)`,
-- a pointer to a key or to a value an `Option`.
pub mod Entries
pub mod Puts
pub mod Set
pub mod Delete
pub mod Methods
pub mod Remove
pub mod Laws
pub mod Iter
mod Tests
use Prim.Native.Nat.Ordering.{lt, eq, gt}
use seqc.Prelude.{
  ℕ, suc, ◌+◌, ◌-◌, ◌%◌, Bool, true, false, Option, none, some, if◌then◌else◌, ◌==◌, Status, ok,
  not_found, invalid, size_mod, Allocator, copy_out,
}
use seqc.Order.{Compare}
use seqc.Avl as Avls
use seqc.Avl.{Tree, leaf, node, node_height, min_from, max_from, min_of}
use seqc.Iter.{Source, Next, got, ended, out_of_fuel, iter_next, iter_destroy}

pub record Entry {ℓ κ} (K : Type ℓ) (V : Type κ) : Type (ℓ ⊔ κ) where
  pub key : K
  pub value : V

pub record Omap {ℓ κ} (K : Type ℓ) (V : Type κ) : Type (ℓ ⊔ κ) where
  pub root : Tree (Entry K V)
  pub len : ℕ
  pub key_size : ℕ
  pub val_size : ℕ

-- `sizeof(omap_t)`, with an `allocator_t` of `handle` bytes.
abbrev pub sizeof_omap : ℕ → ℕ
sizeof_omap handle = 40 + handle

-- `x & ~(SEQC_MAX_ALIGN - 1)`, with 16 for SEQC_MAX_ALIGN.
abbrev round_down : ℕ → ℕ
round_down n = n - n % 16

-- The header of a node has 24 bytes.
abbrev key_off : ℕ
key_off = round_down (24 + 15)

abbrev val_off : ℕ → ℕ
val_off key_size = round_down ((key_off + key_size + 15) % size_mod)

abbrev pub node_sz : ℕ → ℕ → ℕ
node_sz key_size val_size = (val_off key_size + val_size) % size_mod

module _ {ℓ κ} {K : Type ℓ} {V : Type κ} where
  unfoldable pub rebalance : Tree (Entry K V) → Tree (Entry K V)
  rebalance t = Avls.rebalance t

  unfoldable pub min_key_ptr : Option (Omap K V) → Option K
  min_key_ptr none = none
  min_key_ptr (some m) = elim m.root [ leaf ↦ none | node l e h r ↦ some (min_from l e).key ]

  unfoldable pub max_key_ptr : Option (Omap K V) → Option K
  max_key_ptr none = none
  max_key_ptr (some m) = elim m.root [ leaf ↦ none | node l e h r ↦ some (max_from e r).key ]

  pub min_key : Option (Omap K V) → Status × Option K
  min_key none = (invalid, none)
  min_key (some m) = copy_out (min_key_ptr (some m))

  pub max_key : Option (Omap K V) → Status × Option K
  max_key none = (invalid, none)
  max_key (some m) = copy_out (max_key_ptr (some m))

  -- `key_out` and `val_out` together are an entry.
  unfoldable pub min_entry : Option (Omap K V) → Status × Option (Entry K V)
  min_entry none = (not_found, none)
  min_entry (some m) = elim m.root [
    | leaf ↦ (not_found, none)
    | node l e h r ↦ (ok, some (min_from l e))
  ]

  unfoldable pub max_entry : Option (Omap K V) → Status × Option (Entry K V)
  max_entry none = (not_found, none)
  max_entry (some m) = elim m.root [
    | leaf ↦ (not_found, none)
    | node l e h r ↦ (ok, some (max_from e r))
  ]

  pub len : Option (Omap K V) → ℕ
  len none = 0
  len (some m) = m.len

  pub height : Option (Omap K V) → ℕ
  height none = 0
  height (some m) = node_height m.root

  pub is_empty : Option (Omap K V) → Bool
  is_empty none = true
  is_empty (some m) = m.len == 0

-- What `do_set` leaves: the subtree, the two flags, and the heap.
pub record Setting {ℓ κ μ} (K : Type ℓ) (V : Type κ) (H : Type μ) : Type (ℓ ⊔ κ ⊔ μ) where
  pub tree : Tree (Entry K V)
  pub inserted : Bool
  pub oom : Bool
  pub heap : H

-- What `do_remove` leaves.
pub record Removal {ℓ κ μ} (K : Type ℓ) (V : Type κ) (H : Type μ) : Type (ℓ ⊔ κ ⊔ μ) where
  pub tree : Tree (Entry K V)
  pub removed : Bool
  pub heap : H

module _ {ℓ κ} {K : Type ℓ} {V : Type κ} ⦃o : Compare K⦄ where
  -- The `while (cur)` loop of `omap_get_ptr`.
  unfoldable pub find : Tree (Entry K V) → K → Option V
  find leaf k = none
  find (node l e h r) k = elim (o.cmp k e.key) [ lt ↦ find l k | gt ↦ find r k | eq ↦ some e.value ]

  unfoldable pub get_ptr : Option (Omap K V) → Option K → Option V
  unfolding find
  get_ptr none k = none
  get_ptr (some m) none = none
  get_ptr (some m) (some k) = find m.root k

  unfoldable pub get : Option (Omap K V) → Option K → Status × Option V
  get none k = (invalid, none)
  get (some m) none = (invalid, none)
  get (some m) (some k) = copy_out (get_ptr (some m) (some k))

  pub contains : Option (Omap K V) → Option K → Bool
  contains m k = elim (get m k).0 [ ok ↦ true | _ ↦ false ]

module _ {ℓ κ μ} {K : Type ℓ} {V : Type κ} {H : Type μ} ⦃al : Allocator H⦄ where
  unfoldable pub create : ℕ → ℕ → H → Option (Omap K V) × H
  create key_size val_size h = elim (al.alloc (sizeof_omap al.handle_size) h) [
    | none ↦ (none, h)
    | some h' ↦
        (some (record { root = leaf; len = 0; key_size = key_size; val_size = val_size }), h')
  ]

  pub free_subtree : ℕ → Tree (Entry K V) → H → H
  free_subtree size leaf h = h
  free_subtree size (node l e ht r) h = al.free size (free_subtree size r (free_subtree size l h))

  pub clear : Option (Omap K V) → H → Option (Omap K V) × H
  unfolding free_subtree
  clear none h = (none, h)
  clear (some m) h = (
    some (record m { root = leaf; len = 0 }),
    free_subtree (node_sz m.key_size m.val_size) m.root h,
  )

  pub destroy : Option (Omap K V) → H → H
  unfolding free_subtree
  destroy none h = h
  destroy (some m) h =
      al.free (sizeof_omap al.handle_size) (free_subtree (node_sz m.key_size m.val_size) m.root h)

module _ {ℓ κ μ} {K : Type ℓ} {V : Type κ} {H : Type μ} ⦃o : Compare K⦄ ⦃al : Allocator H⦄ where
  -- `size` is `node_sz(m->key_size, m->val_size)`. The new node is `make_node`'s.
  unfoldable pub do_set : ℕ → Tree (Entry K V) → K → V → H → Setting K V H
  unfolding rebalance
  do_set size leaf k v h = elim (al.alloc size h) [
    | none ↦ record { tree = leaf; inserted = false; oom = true; heap = h }
    | some h' ↦ record {
      tree = node leaf (record { key = k; value = v }) 1 leaf;
      inserted = true;
      oom = false;
      heap = h';
    }
  ]
  do_set size (node l e ht r) k v h = elim (o.cmp k e.key) [
    | lt ↦
        let s = do_set size l k v h in
        if s.oom
        then record s { tree = node l e ht r }
        else record s { tree = rebalance (node s.tree e ht r) }
    | gt ↦
        let s = do_set size r k v h in
        if s.oom
        then record s { tree = node l e ht r }
        else record s { tree = rebalance (node l e ht s.tree) }
    | eq ↦ record {
      tree = node l (record e { value = v }) ht r;
      inserted = false;
      oom = false;
      heap = h;
    }
  ]

  -- `omap_set`. `new_root` is NULL only where the allocator refused.
  unfoldable pub set : Option (Omap K V) → Option K → Option V → H → Status × Option (Omap K V) × H
  unfolding do_set
  set none k v h = (invalid, none, h)
  set (some m) none v h = (invalid, some m, h)
  set (some m) (some k) none h = (invalid, some m, h)
  set (some m) (some k) (some v) h =
      let s = do_set (node_sz m.key_size m.val_size) m.root k v h in
      if s.oom then (Status.oom, some m, s.heap) else (
        ok,
        some (record m {
          root = s.tree;
          len = if s.inserted then (m.len + 1) % size_mod else m.len;
        }),
        s.heap,
      )

  unfoldable pub do_remove : ℕ → Tree (Entry K V) → K → H → Removal K V H
  unfolding rebalance
  do_remove size leaf k h = record { tree = leaf; removed = false; heap = h }
  do_remove size (node l e ht r) k h = elim (o.cmp k e.key) [
    | lt ↦ let d = do_remove size l k h in record d { tree = rebalance (node d.tree e ht r) }
    | gt ↦ let d = do_remove size r k h in record d { tree = rebalance (node l e ht d.tree) }
    | eq ↦
        let succ = min_of r e in
        let d = do_remove size r succ.key h in
        let two : Removal K V H = record {
          tree = rebalance (node l succ ht d.tree);
          removed = true;
          heap = d.heap;
        } in
        let only_left : Removal K V H = record {
          tree = l;
          removed = true;
          heap = al.free size h;
        } in
        elim l [
          | leaf ↦ record { tree = r; removed = true; heap = al.free size h }
          | node _ _ _ _ ↦ elim r [ leaf ↦ only_left | node _ _ _ _ ↦ two ]
        ]
  ]

  unfoldable pub remove : Option (Omap K V) → Option K → H → Status × Option (Omap K V) × H
  unfolding do_remove
  remove none k h = (invalid, none, h)
  remove (some m) none h = (invalid, some m, h)
  remove (some m) (some k) h =
      let d = do_remove (node_sz m.key_size m.val_size) m.root k h in
      (
        (if d.removed then ok else not_found),
        some (record m { root = d.tree; len = if d.removed then m.len - 1 else m.len }),
        d.heap,
      )
