-- ===== src/Queue/Tests.antt =====
-- Runs of src/queue/queue.c on a queue of numbers of 8 bytes that goes round its block.
use seqc.Prelude.{ℕ, ◌≡◌, refl, some, List, [], ◌∷◌, arith, fresh}
use seqc.Samples.{budget, budget-IsBounded, zeroed, plenty, scarce}
use seqc.Fifo.{Op, Reply, Trace}
use seqc.Queue.{Queue, push, pop}
use seqc.Queue.Valid.{IsValid}
use seqc.Queue.Refine.{run_fifo, run_fifo-Trace}

-- The oldest element is in the last slot.
abbrev round : Queue ℕ
round = record { buf = 5 ∷ (6 ∷ (4 ∷ [])); cap = 3; len = 3; head = 2; elem_size = 8 }

round-IsValid : IsValid round
round-IsValid = record {
  slots = refl;
  filled = omega arith;
  head_in = omega arith;
  sized = omega arith;
  narrow = omega arith;
  small = omega arith;
}

abbrev calls : List (Op ℕ)
calls = Op.get ∷ (Op.put 7 ∷ (Op.put 8 ∷ (Op.get ∷ [])))

run_plenty :
    run_fifo calls (some round) plenty
    ≡ Reply.got 4 ∷ (Reply.pushed ∷ (Reply.pushed ∷ (Reply.got 5 ∷ [])))
unfolding run_fifo push pop fresh
run_plenty = refl

run_scarce :
    run_fifo calls (some round) scarce
    ≡ Reply.got 4 ∷ (Reply.pushed ∷ (Reply.refused ∷ (Reply.got 5 ∷ [])))
unfolding run_fifo push pop
run_scarce = refl

run_fifo_example : Trace (4 ∷ (5 ∷ (6 ∷ []))) calls (run_fifo calls (some round) plenty)
run_fifo_example = run_fifo-Trace calls round plenty budget-IsBounded round-IsValid
