-- ===== src/Stack/Iter.antt =====
-- stack_iter and stack_iter_rev of src/stack/stack.c: the iterators of the stack's vector.
use seqc.Prelude.{Option, none, some, Uninit, Allocator}
use seqc.Iter.Slice.{SliceIter}
use seqc.Stack.{Stack}
use seqc.Vec.Iter as Array

module _ {ℓ κ} {A : Type ℓ} {H : Type κ} ⦃u : Uninit A⦄ ⦃al : Allocator H⦄ where
  pub iter : Option (Stack A) → H → Option (SliceIter A × H)
  iter none h = none
  iter (some s) h = Array.iter s.vec h

  pub iter_rev : Option (Stack A) → H → Option (SliceIter A × H)
  iter_rev none h = none
  iter_rev (some s) h = Array.iter_rev s.vec h
