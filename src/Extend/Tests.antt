-- ===== src/Extend/Tests.antt =====
-- queue_extend and bstree_extend at four numbers, and vec_extend at the two of a full vector.
use seqc.Prelude.{ℕ, ◌-◌, ◌≡◌, refl, some, [], ◌∷◌, arith}
use seqc.Samples.{budget, budget-IsBounded, zeroed, plenty, ascending}
use seqc.Order.Sorted
use seqc.Iter.Sample.{digits, at, slices, digits-Steady}
use seqc.Iter.Slice.{slice_source}
use seqc.Queue.{Queue}
use seqc.Queue.Valid
use seqc.Bstree.{Bstree, leaf, node}
use seqc.Bstree.Refine.{to_list}
use seqc.Bstree.Methods
use seqc.Extend.{queue_extend, bstree_extend}
use seqc.Queue as Queues
use seqc.Bstree as Bstrees
use seqc.Vec as Vecs
use seqc.Vec.Grow.{Blocked}
use seqc.Extend.Adds.{IsFull, Extended, put_all, queue_extend-Holds}
use seqc.Extend.Trees.{IsOut, bstree_extend-Tree}
use seqc.Vec.{Vec}
use seqc.Vec.Valid as Vectors
use seqc.Vec.Iter as Iter
use seqc.Iter.Slice.{SliceIter}
use seqc.Extend.{vec_extend}
use seqc.Extend.Vectors.{vec_extend-iter}

abbrev one : Queue ℕ
one = record { buf = 9 ∷ (0 ∷ []); cap = 2; len = 1; head = 0; elem_size = 8 }

one-IsValid : Valid.IsValid one
one-IsValid = record {
  slots = refl;
  filled = omega arith;
  head_in = omega arith;
  sized = omega arith;
  narrow = omega arith;
  small = omega arith;
}

queue_extend-Holds_example :
    Extended slices
      (λ coll x. Queues.push coll (some x))
      IsFull
      (λ xs r. Valid.Holds 8 (9 ∷ xs) r)
      8
      one
      (plenty - 8)
      digits
      (at 4)
      (queue_extend slices 5 (some one) (some (at 0)) plenty)
unfolding slice_source
queue_extend-Holds_example =
    queue_extend-Holds slices one 5 plenty (plenty - 8) budget-IsBounded one-IsValid refl refl
      digits-Steady (omega arith)

abbrev two : Bstree ℕ
two = record { root = node leaf 4 (node leaf 7 leaf); len = 2; elem_size = 8 }

two-IsValid : Methods.IsValid two
unfolding to_list
two-IsValid = record { ordered = ((refl, tt), (tt, tt)); counted = refl; bounded = omega arith }

bstree_extend-Tree_example :
    Extended slices
      (λ coll x. Bstrees.add coll (some x))
      IsOut
      (λ xs t.
        Methods.IsValid t
        × (to_list t.root ≡ put_all (λ ys y. Sorted.add y ys) (4 ∷ (7 ∷ [])) xs)
        × (t.elem_size ≡ 8))
      8
      two
      (plenty - 8)
      digits
      (at 4)
      (bstree_extend slices 5 (some two) (some (at 0)) plenty)
unfolding slice_source to_list
bstree_extend-Tree_example =
    bstree_extend-Tree slices two 5 plenty (plenty - 8) two-IsValid (omega arith) refl refl
      digits-Steady (omega arith)

-- A full vector, so that the extension has to move its block.
abbrev full : Vec ℕ
full = record { buf = 1 ∷ (2 ∷ []); len = 2; cap = 2; elem_size = 8 }

full-IsValid : Vectors.IsValid full
full-IsValid = record {
  slots = refl;
  filled = omega arith;
  sized = omega arith;
  narrow = omega arith;
  small = omega arith;
}

vec_extend-iter_example :
    (s : SliceIter ℕ) × (t : SliceIter ℕ) × (Iter.iter (some full) plenty ≡ some (s, plenty - 32))
    × Extended
        (slice_source 8)
        (λ coll x. Vecs.push coll (some x))
        Blocked
        (λ xs r. Vectors.Holds 8 (1 ∷ (2 ∷ xs)) r)
        8
        full
        (plenty - 40)
        (1 ∷ (2 ∷ []))
        t
        (vec_extend (slice_source 8) 3 (some full) (some s) (plenty - 32))
vec_extend-iter_example =
    vec_extend-iter full full 3 plenty (plenty - 32) (plenty - 40) budget-IsBounded full-IsValid
      full-IsValid refl refl refl (omega arith)
