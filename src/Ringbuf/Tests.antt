-- ===== src/Ringbuf/Tests.antt =====
-- Runs of src/ringbuf/ringbuf.c on a buffer of numbers of 8 bytes that goes round its block.
use seqc.Prelude.{ℕ, ◌≡◌, refl, inr, some, none, List, [], ◌∷◌, arith, bytes, fresh, memcpy, Grows}
use seqc.Samples.{budget, budget-IsBounded, zeroed, plenty}
use seqc.Deque.{Op, Reply, Trace}
use seqc.Ringbuf.{Ringbuf, push_back, push_front, pop_front, pop_back, next_cap}
use seqc.Ringbuf.Valid.{IsValid, Holds}
use seqc.Ringbuf.Refine.{ringbuf_push_front_lem, run_deque, run_deque-Trace}

-- The first element is in the last slot.
abbrev round : Ringbuf ℕ
round = record { buf = 5 ∷ (0 ∷ (0 ∷ (4 ∷ []))); cap = 4; len = 2; head = 3; elem_size = 8 }

-- The same with no room left.
abbrev full : Ringbuf ℕ
full = record { buf = 5 ∷ (4 ∷ []); cap = 2; len = 2; head = 1; elem_size = 8 }

round-IsValid : IsValid round
round-IsValid = record {
  slots = refl;
  filled = omega arith;
  head_in = omega arith;
  power = inr (2, refl);
  sized = omega arith;
  narrow = omega arith;
  small = omega arith;
}

full-IsValid : IsValid full
full-IsValid = record {
  slots = refl;
  filled = omega arith;
  head_in = omega arith;
  power = inr (1, refl);
  sized = omega arith;
  narrow = omega arith;
  small = omega arith;
}

abbrev calls : List (Op ℕ)
calls = Op.put_front 3 ∷ (Op.put_back 6 ∷ (Op.get_back ∷ (Op.get_front ∷ [])))

run_plenty :
    run_deque calls (some full) plenty
    ≡ Reply.pushed ∷ (Reply.pushed ∷ (Reply.got 6 ∷ (Reply.got 3 ∷ [])))
unfolding run_deque push_front push_back pop_front pop_back memcpy fresh
run_plenty = refl

run_deque_example : Trace (4 ∷ (5 ∷ [])) calls (run_deque calls (some round) plenty)
run_deque_example = run_deque-Trace calls round plenty budget-IsBounded round-IsValid

ringbuf_push_front_example :
    Grows full plenty
      (push_front (some full) (some 7) plenty)
      ((full.len ≡ full.cap) × (budget.alloc (bytes (next_cap full) 8) plenty ≡ none))
      (Holds 8 (7 ∷ (4 ∷ (5 ∷ []))))
ringbuf_push_front_example = ringbuf_push_front_lem full 7 plenty budget-IsBounded full-IsValid
