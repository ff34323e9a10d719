-- ===== src/Pqueue/Iter.antt =====
-- pqueue_iter, pqueue_iter_rev and pqueue_extend of src/pqueue/pqueue.c.
use seqc.Prelude.{ℕ, Option, none, some, Status, invalid, Uninit, Allocator}
use seqc.Order.{Compare}
use seqc.Iter.{Source, iter_destroy}
use seqc.Iter.Slice.{SliceIter}
use seqc.Extend.{seqc_extend}
use seqc.Vec.{elem_size as vec_elem_size}
use seqc.Vec.Iter as Array
use seqc.Pqueue.{Pqueue, push}

module _ {ℓ κ} {A : Type ℓ} {H : Type κ} ⦃u : Uninit A⦄ ⦃al : Allocator H⦄ where
  pub iter : Option (Pqueue A) → H → Option (SliceIter A × H)
  iter none h = none
  iter (some q) h = Array.iter q.vec h

  pub iter_rev : Option (Pqueue A) → H → Option (SliceIter A × H)
  iter_rev none h = none
  iter_rev (some q) h = Array.iter_rev q.vec h

module _ {ℓ κ μ} {A : Type ℓ} {S : Type κ} {H : Type μ} ⦃u : Uninit A⦄ ⦃o : Compare A⦄
    ⦃al : Allocator H⦄ (src : Source A S H) (fuel : ℕ) where
  pub pqueue_extend : Option (Pqueue A) → Option S → H → Option (Status × Option (Pqueue A) × H)
  pqueue_extend none it h = some (invalid, none, iter_destroy src it h)
  pqueue_extend (some q) it h =
      seqc_extend src (λ coll x. push coll (some x)) (vec_elem_size q.vec) fuel (some q) it h
