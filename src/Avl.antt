-- ===== src/Avl.antt =====
-- src/avl/avl.c: the balanced search tree `avl_t`, a set of elements under a client's order.
--
-- A node pointer is a `Tree A` (`leaf` is NULL): the tree owns its nodes, each is reached from one
-- place, and the code writes a node's fields only on the way back to the root. `height` is an
-- `int`, which a tree that fits the memory does not overflow. A handle `avl_t *` is an
-- `Option (Avl A)`, a pointer to an element an `Option A`.
pub mod Balance
pub mod Api
pub mod Inorder
pub mod Insert
pub mod Remove
pub mod Methods
pub mod Height
pub mod Ends
pub mod Iter
mod Tests
use Prim.Native.Nat.Ordering.{lt, eq, gt}
use seqc.Prelude.{
  ℕ, suc, ◌+◌, ◌-◌, ◌%◌, Bool, true, false, not, ◌&&◌, Option, none, some, if◌then◌else◌, leb, ltb,
  ◌==◌, Status, ok, not_found, duplicate, oom, invalid, size_mod, Allocator, copy_out,
}
use seqc.Prelude.Int.{ℤ, pos, negsuc, sub_ℕ, ltb_ℤ}
use seqc.Order.{Compare}

pub data Tree {ℓ} (A : Type ℓ) : Type ℓ where
  leaf : Tree A
  node : Tree A → A → ℕ → Tree A → Tree A

pub record Avl {ℓ} (A : Type ℓ) : Type ℓ where
  pub root : Tree A
  pub len : ℕ
  pub elem_size : ℕ

-- `sizeof(avl_t)`, with an `allocator_t` of `handle` bytes.
abbrev pub sizeof_avl : ℕ → ℕ
sizeof_avl handle = 32 + handle

-- `node_alloc_size`, with 24 bytes of header and 16 for SEQC_MAX_ALIGN.
abbrev pub node_alloc_size : ℕ → ℕ
node_alloc_size elem_size = (32 + elem_size) % size_mod

unfoldable pub max2 : ℕ → ℕ → ℕ
max2 a b = if ltb b a then a else b

module _ {ℓ} {A : Type ℓ} where
  unfoldable pub node_height : Tree A → ℕ
  node_height leaf = 0
  node_height (node l x h r) = h

  -- `update_height` of a node with these children.
  unfoldable pub update_height : Tree A → A → Tree A → Tree A
  unfolding node_height max2
  update_height l x r = node l x (1 + max2 (node_height l) (node_height r)) r

  unfoldable pub balance_factor : Tree A → ℤ
  unfolding node_height
  balance_factor leaf = pos 0
  balance_factor (node l x h r) = sub_ℕ (node_height l) (node_height r)

  -- The code reads `y->left`, which `rebalance` makes sure of; without it nothing is rotated here.
  unfoldable pub rotate_right : Tree A → Tree A
  unfolding update_height
  rotate_right (node (node a x hx b) y hy c) = update_height a x (update_height b y c)
  rotate_right t = t

  unfoldable pub rotate_left : Tree A → Tree A
  unfolding update_height
  rotate_left (node a x hx (node b y hy c)) = update_height (update_height a x b) y c
  rotate_left t = t

  unfoldable pub rebalance : Tree A → Tree A
  unfolding update_height balance_factor rotate_left rotate_right
  rebalance leaf = leaf
  rebalance (node l x h r) =
      let n = update_height l x r in
      let bf = balance_factor n in
      if ltb_ℤ (pos 1) bf && not (ltb_ℤ (balance_factor l) (pos 0))
      then rotate_right n
      else if ltb_ℤ (pos 1) bf && ltb_ℤ (balance_factor l) (pos 0)
      then rotate_right (node (rotate_left l) x h r)
      else if ltb_ℤ bf (negsuc 0) && not (ltb_ℤ (pos 0) (balance_factor r))
      then rotate_left n
      else if ltb_ℤ bf (negsuc 0) && ltb_ℤ (pos 0) (balance_factor r)
      then rotate_left (node l x h (rotate_right r))
      else n

  -- `node_data(min_node(n))` for a node with left child `l` and element `x`.
  unfoldable pub min_from : Tree A → A → A
  min_from leaf x = x
  min_from (node l y h r) x = min_from l y

  unfoldable pub max_from : A → Tree A → A
  max_from x leaf = x
  max_from x (node l y h r) = max_from y r

  -- The same at the root of a tree; for the empty tree there is none, and `x` is given back.
  unfoldable pub min_of : Tree A → A → A
  unfolding min_from
  min_of leaf x = x
  min_of (node l y h r) x = min_from l y

  pub min_ptr : Option (Avl A) → Option A
  unfolding min_from
  min_ptr none = none
  min_ptr (some t) = elim t.root [ leaf ↦ none | node l x h r ↦ some (min_from l x) ]

  pub max_ptr : Option (Avl A) → Option A
  unfolding max_from
  max_ptr none = none
  max_ptr (some t) = elim t.root [ leaf ↦ none | node l x h r ↦ some (max_from x r) ]

  pub min : Option (Avl A) → Status × Option A
  min none = (invalid, none)
  min (some t) = copy_out (min_ptr (some t))

  pub max : Option (Avl A) → Status × Option A
  max none = (invalid, none)
  max (some t) = copy_out (max_ptr (some t))

  pub len : Option (Avl A) → ℕ
  len none = 0
  len (some t) = t.len

  pub height : Option (Avl A) → ℕ
  height none = 0
  height (some t) = node_height t.root

  pub is_empty : Option (Avl A) → Bool
  is_empty none = true
  is_empty (some t) = t.len == 0
