-- ===== src/Iter/Tests.antt =====
-- Runs of the iterators over four numbers, and the claims about them at those.
use seqc.Prelude.{ℕ, suc, refl, false, none, [], ◌∷◌, ◌++◌, ltb, ◌==◌, arith}
use seqc.Samples.{budget, zeroed, plenty, ascending}
use seqc.Iter.Sample.{digits, at, slices, digits-Steady, digits-Produces}
use seqc.Iter.{Yields}
use seqc.Iter.Slice.{SliceIter}
use seqc.Iter.Each.{map_source, enum_source, numbered}
use seqc.Iter.Prefix.{take_source, take_while_source}
use seqc.Iter.Suffix.{skip_source, skip_while_source}
use seqc.Iter.Select.{filter_source, dedup_source}
use seqc.Iter.Pair.{chain_source, zip_source, zip}
use seqc.Iter.Adaptors.{passing-Yields, searching-Yields, pair-Yields}
use seqc.Iter.Group.{window_source, chunk_source}
use seqc.Iter.Group.Runs.{groups-Yields}
use seqc.Iter.Peek.{
  Peekable, Pending, in_source, Heads, peekable_peek, peekable_next, peekable-Heads,
}

passing-Yields_example :
    Yields (map_source slices suc 8) (record { source = at 0 }) plenty (6 ∷ (6 ∷ (7 ∷ (5 ∷ []))))
    × Yields (enum_source slices) (record { source = at 0; index = 0 }) plenty (numbered 0 digits)
    × Yields (take_source slices) (record { source = at 0; remaining = 2 }) plenty (5 ∷ (5 ∷ []))
    × Yields
        (take_while_source slices (λ n. ltb n 6))
        (record { source = at 0 })
        plenty
        (5 ∷ (5 ∷ []))
    × Yields (skip_source slices) (record { source = at 0; remaining = 2 }) plenty (6 ∷ (4 ∷ []))
passing-Yields_example = passing-Yields suc 8 2 (λ n. ltb n 6) digits-Produces

searching-Yields_example :
    Yields
      (skip_while_source slices (λ n. ltb n 6) 5)
      (record { source = at 0; done_skipping = false })
      plenty
      (6 ∷ (4 ∷ []))
    × Yields
        (filter_source slices (λ n. ltb n 6) 5)
        (record { source = at 0 })
        plenty
        (5 ∷ (5 ∷ (4 ∷ [])))
    × Yields
        (dedup_source slices (λ m n. m == n) 5)
        (record { source = at 0; last = none })
        plenty
        (5 ∷ (6 ∷ (4 ∷ [])))
searching-Yields_example =
    searching-Yields (λ n. ltb n 6) (λ m n. m == n) 4 digits-Produces (omega arith)

pair-Yields_example :
    Yields
      (chain_source slices slices)
      (record { first = at 0; second = at 0; done_first = false })
      plenty
      (digits ++ digits)
    × Yields (zip_source slices slices) (record { a = at 0; b = at 0 }) plenty (zip digits digits)
pair-Yields_example = pair-Yields slices slices plenty digits-Steady digits-Steady

groups-Yields_example :
    Yields
      (window_source slices)
      (record { source = at 0; buf = 0 ∷ (0 ∷ (0 ∷ [])); n = 3; primed = false })
      plenty
      ((5 ∷ (5 ∷ (6 ∷ []))) ∷ ((5 ∷ (6 ∷ (4 ∷ []))) ∷ []))
    × Yields
        (chunk_source slices)
        (record { source = at 0; buf = 0 ∷ (0 ∷ (0 ∷ [])); n = 3; done = false })
        plenty
        ((5 ∷ (5 ∷ (6 ∷ []))) ∷ ((4 ∷ []) ∷ []))
groups-Yields_example =
    groups-Yields slices 3 (0 ∷ (0 ∷ (0 ∷ []))) (omega arith) refl digits-Produces

abbrev unpeeked : Peekable ℕ (SliceIter ℕ)
unpeeked = record { source = at 0; peeked = none; source_done = false }

peekable-Heads_example :
    Heads (peekable_peek slices unpeeked plenty) digits (λ t h ys. Pending slices t h digits)
    × Heads (peekable_next slices unpeeked plenty) digits (λ t h ys. Pending slices t h ys)
peekable-Heads_example = peekable-Heads slices (in_source (_, _, digits-Produces))
