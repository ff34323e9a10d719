-- ===== src/Bstree/Iter/Both.antt =====
-- A client's loop over the iterators of src/bstree/bstree.c.
use seqc.Prelude.{ℕ, ◌<◌, length, reverse, Allocator}
use seqc.Prelude.Collect.{collect, Collected}
use seqc.Bstree.{Bstree}
use seqc.Bstree.Refine.{to_list}
use seqc.Bstree.Iter.{iter, iter_next, iter_rev_next, pending, pending_rev, Stuck}
use seqc.Bstree.Iter.Forward.{collect-iter}
use seqc.Bstree.Iter.Backward.{collect-iter_rev}

module _ {ℓ κ} {A : Type ℓ} {H : Type κ} ⦃al : Allocator H⦄ where
  -- A loop over bstree_iter with more rounds than the tree has elements collects the elements in
  -- order, and one over bstree_iter_rev collects them in reverse order; either is cut short, with
  -- the first of them collected, only where its stack is full and the allocator refuses the larger
  -- one.
  pub collect-bstree_iters :
      (t : Bstree A) (fuel : ℕ) (h : H)
      → length (to_list t.root) < fuel
      → Collected pending Stuck (to_list t.root) (collect iter_next fuel (iter t) h)
        × Collected pending_rev Stuck
            (reverse (to_list t.root))
            (collect iter_rev_next fuel (iter t) h)
  collect-bstree_iters t fuel h less = (collect-iter t fuel h less, collect-iter_rev t fuel h less)
