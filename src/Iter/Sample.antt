-- ===== src/Iter/Sample.antt =====
-- Four numbers in a block, and the iterators over them, for the tests.
use seqc.Prelude.{ℕ, some, List, [], ◌∷◌, arith}
use seqc.Samples.{budget, zeroed, plenty}
use seqc.Iter.{Source, Produces}
use seqc.Iter.Slice.{SliceIter, slice_source}
use seqc.Iter.Slice.Reads.{slice-iters}
use seqc.Iter.Pair.{Steady}
use seqc.Iter.Adaptors.{Steady-Produces}

abbrev pub digits : List ℕ
digits = 5 ∷ (5 ∷ (6 ∷ (4 ∷ [])))

abbrev pub at : ℕ → SliceIter ℕ
at pos = record { ptr = some digits; len = 4; elem_size = 8; pos = pos }

abbrev pub slices : Source ℕ (SliceIter ℕ) ℕ
slices = slice_source 8

-- Elements that do not fit into the scratch buffer.
abbrev pub wide_slices : Source ℕ (SliceIter ℕ) ℕ
wide_slices = slice_source 600

pub digits-Steady : Steady slices (at 0) digits (at 4)
digits-Steady = (slice-iters 8 digits 4 8 (omega arith) (omega arith)).0

pub digits-Produces : Produces slices (at 0) plenty digits (at 4) plenty
digits-Produces = Steady-Produces plenty digits-Steady
