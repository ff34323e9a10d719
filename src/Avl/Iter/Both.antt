-- ===== src/Avl/Iter/Both.antt =====
-- A client's loop over the iterators of src/avl/avl.c.
use seqc.Prelude.{ℕ, ◌<◌, length, reverse, Allocator}
use seqc.Prelude.Collect.{collect, Collected}
use seqc.Avl.{Avl}
use seqc.Avl.Inorder.{to_list}
use seqc.Avl.Iter.{iter, iter_next, iter_rev_next, pending, pending_rev, Stuck}
use seqc.Avl.Iter.Forward.{collect-iter}
use seqc.Avl.Iter.Backward.{collect-iter_rev}

module _ {ℓ κ} {A : Type ℓ} {H : Type κ} ⦃al : Allocator H⦄ where
  -- A loop over avl_iter with more rounds than the tree has elements collects the elements in
  -- order, and one over avl_iter_rev collects them in reverse order; either is cut short, with the
  -- first of them collected, only where its stack is full and the allocator refuses the larger one.
  pub collect-avl_iters :
      (t : Avl A) (fuel : ℕ) (h : H)
      → length (to_list t.root) < fuel
      → Collected pending Stuck (to_list t.root) (collect iter_next fuel (iter t) h)
        × Collected pending_rev Stuck
            (reverse (to_list t.root))
            (collect iter_rev_next fuel (iter t) h)
  collect-avl_iters t fuel h less = (collect-iter t fuel h less, collect-iter_rev t fuel h less)
