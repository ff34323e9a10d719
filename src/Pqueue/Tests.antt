-- ===== src/Pqueue/Tests.antt =====
-- Runs of src/pqueue/pqueue.c on queues of numbers of 8 bytes.
use mathlib.Core.List.{Perm}
use mathlib.Core.List.Perm
use seqc.Prelude.{
  true, false, ℕ, suc, zero, ◌≡◌, refl, ◌⊎◌, none, some, List, [], ◌∷◌, arith, ok, bytes, Grows,
  Takes, true,
}
use seqc.Samples.{budget, budget-IsBounded, zeroed, ascending, plenty}
use seqc.Order.{Le}
use seqc.Order.Sorted.{All}
use seqc.Vec as Array
use seqc.Vec.{Vec, slot, store, sizeof_vec}
use seqc.Vec.Valid.{IsValid, contents}
use seqc.Vec.Grow.{Blocked}
use seqc.Iter.Slice.{Slice}
use seqc.Pqueue.{
  Pqueue, push, pop, pop_root, drain, create_from_vec, sift_up, sift_up_loop, sift_down,
  sift_down_loop, smallest, swap_elems, sizeof_pqueue,
}
use seqc.Pqueue.Order.{IsHeap, IsQueue}
use seqc.Pqueue.Push.{pqueue_push_lem}
use seqc.Pqueue.Pop.{pqueue_pop_lem}
use seqc.Pqueue.Drain.{IsOrdered, pqueue_drain_lem}
use seqc.Pqueue.Build.{Pushes, empty, create_from_vec-IsQueue}

abbrev slots : Vec ℕ
slots = record { buf = 2 ∷ (5 ∷ (3 ∷ (0 ∷ []))); len = 3; cap = 4; elem_size = 8 }

abbrev three : Pqueue ℕ
three = record { vec = some slots }

abbrev numbers : List ℕ
numbers = 5 ∷ (3 ∷ (2 ∷ []))

slots-IsValid : IsValid slots
slots-IsValid = record {
  slots = refl;
  filled = omega arith;
  sized = omega arith;
  narrow = omega arith;
  small = omega arith;
}

slots-IsHeap : IsHeap slots
unfolding slot
slots-IsHeap zero p q r = absurd (omega arith)
slots-IsHeap (suc zero) p q r = refl
slots-IsHeap (suc (suc zero)) p q r = refl
slots-IsHeap (suc (suc (suc c))) p q r = absurd (omega arith)

three-IsQueue : IsQueue 8 numbers three
three-IsQueue = record {
  v = slots;
  has = refl;
  valid = slots-IsValid;
  sized = refl;
  ordered = slots-IsHeap;
  same = Perm.trans (Perm.swap 5 2 (3 ∷ [])) (Perm.cons 5 (Perm.swap 3 2 []));
}

-- The new element rises to the root, and a popped root gives way to the least element left.
pushed : push (some three) (some 1) plenty ≡ (
  ok,
  some (record {
    vec = some (record { buf = 1 ∷ (2 ∷ (3 ∷ (5 ∷ []))); len = 4; cap = 4; elem_size = 8 });
  }),
  plenty,
)
unfolding push sift_up sift_up_loop swap_elems slot store Array.push Array.append Array.len
pushed = refl

popped : pop (some three) ≡ (
  ok,
  some 2,
  some (record {
    vec = some (record { buf = 3 ∷ (5 ∷ (3 ∷ (0 ∷ []))); len = 2; cap = 4; elem_size = 8 });
  }),
)
unfolding pop pop_root sift_down sift_down_loop smallest swap_elems slot store Array.pop Array.len
popped = refl

pqueue_push_example :
    Grows three plenty
      (push (some three) (some 1) plenty)
      ((v : Vec ℕ) × (some slots ≡ some v) × Blocked v plenty)
      (IsQueue 8 (1 ∷ numbers))
pqueue_push_example = pqueue_push_lem three 8 numbers 1 plenty budget-IsBounded three-IsQueue

pqueue_pop_example :
    Takes three
      (pop (some three))
      (numbers ≡ [])
      (λ x r. (ys : List ℕ) × IsQueue 8 ys r × Perm (x ∷ ys) numbers × All (Le x) numbers)
pqueue_pop_example = pqueue_pop_lem three 8 numbers three-IsQueue

pqueue_drain_example :
    (s : Slice ℕ) × (r : Pqueue ℕ) × (h' : ℕ) × (drain three plenty ≡ (s, some r, h'))
    × IsQueue 8 [] r
    × (((s ≡ record { ptr = none; len = 0; elem_size = 8 })
          × ((numbers ≡ []) ⊎ (budget.alloc (bytes 3 8) plenty ≡ none)))
        ⊎ ((ys : List ℕ) × (s ≡ record { ptr = some ys; len = 3; elem_size = 8 })
            × Perm ys numbers
            × IsOrdered ys))
pqueue_drain_example = pqueue_drain_lem three 8 numbers plenty three-IsQueue

create_from_vec_example :
    ((create_from_vec (some slots) true plenty ≡ (none, plenty))
      × (budget.alloc (sizeof_pqueue 16) plenty ≡ none))
    ⊎ ((h₁ : ℕ) × (budget.alloc (sizeof_pqueue 16) plenty ≡ some h₁)
        × (((create_from_vec (some slots) true plenty ≡ (some (record { vec = none }), h₁))
              × ((true ≡ false) ⊎ (budget.alloc (sizeof_vec 16) h₁ ≡ none)))
            ⊎ ((h₂ : ℕ) × (budget.alloc (sizeof_vec 16) h₁ ≡ some h₂)
                × (q : Pqueue ℕ) × (w : Vec ℕ) × (h' : ℕ) × (ys : List ℕ) × (create_from_vec
                      (some slots)
                      true
                      plenty
                    ≡ (some q, h'))
                × Pushes (empty 8) h₂ (contents slots) ys w h'
                × IsQueue 8 ys q)))
create_from_vec_example = create_from_vec-IsQueue slots true plenty budget-IsBounded slots-IsValid
