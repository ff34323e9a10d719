-- ===== src/Iter/Terminal/Tests.antt =====
-- The claims about the terminals, at four numbers.
use Prim.Native.Nat.{compare}
use seqc.Prelude.{ℕ, ◌+◌, ◌≡◌, refl, ◌⊎◌, true, false, Option, none, some, [], ltb, arith}
use seqc.Samples.{budget, budget-IsBounded, zeroed, plenty, scarce, ascending}
use seqc.Order.{is_lt, is_gt}
use seqc.Iter.Sample.{digits, at, slices, wide_slices, digits-Steady, digits-Produces}
use seqc.Iter.Slice.{Slice, slice_source, slice_drop}
use seqc.Iter.Terminal.{
  iter_count, iter_foreach, iter_reduce, iter_find, iter_any, iter_all, iter_min, iter_max,
  scratch_acquire, scratch_release,
}
use seqc.Iter.Terminal.Result.{Returns}
use seqc.Iter.Terminal.Folds.{terminal_folds, terminal_searches}
use seqc.Iter.Terminal.Extreme.{IsFirst, terminal_extremes}
use seqc.Iter.Collect.{iter_collect}
use seqc.Iter.Collect.Result.{Whole, IsNothing, IsRefused, iter_collect_lem}

room : scratch_acquire slices.elem_size plenty ≡ some plenty
unfolding scratch_acquire slice_source
room = refl

no_room : scratch_acquire wide_slices.elem_size scarce ≡ none
unfolding scratch_acquire slice_source
no_room = refl

terminal_folds_example :
    (iter_count slices 5 (some (at 0)) plenty ≡ some (4, plenty + 32))
    × (iter_foreach slices (λ (n : ℕ) (x : ℕ). n + x) 5 0 (some (at 0)) plenty
        ≡ some (20, plenty + 32))
    × (iter_reduce slices (λ (n : ℕ) (x : ℕ). n + x) 5 0 (some (at 0)) plenty
        ≡ some (20, plenty + 32))
unfolding scratch_release slice_source slice_drop
terminal_folds_example =
    terminal_folds slices (λ (n : ℕ) (x : ℕ). n + x) 0 5 plenty room digits-Produces (omega arith)

terminal_searches_example :
    Returns slices (iter_find slices (λ n. ltb 5 n) 5 (some (at 0)) plenty) (some 6)
    × Returns slices (iter_any slices (λ n. ltb 5 n) 5 (some (at 0)) plenty) true
    × Returns slices (iter_all slices (λ n. ltb 5 n) 5 (some (at 0)) plenty) false
unfolding scratch_release slice_source slice_drop
terminal_searches_example =
    terminal_searches slices (λ n. ltb 5 n) 5 plenty room digits-Produces (omega arith)

terminal_extremes_example :
    ((m : Option ℕ) × (iter_min slices compare 5 (some (at 0)) plenty ≡ some (m, plenty + 32))
      × IsFirst (λ x y. is_lt (compare x y)) digits m)
    × ((m : Option ℕ) × (iter_max slices compare 5 (some (at 0)) plenty ≡ some (m, plenty + 32))
        × IsFirst (λ x y. is_gt (compare x y)) digits m)
unfolding scratch_release slice_source slice_drop
terminal_extremes_example =
    terminal_extremes slices 5 plenty plenty room room digits-Produces (omega arith)

iter_collect_example :
    (r : Slice ℕ) × (h : ℕ) × (iter_collect slices 5 (some (at 0)) plenty ≡ some (r, h))
    × (Whole r digits ⊎ (IsNothing r × ((digits ≡ []) ⊎ IsRefused 8 4 plenty)))
unfolding scratch_release slice_source slice_drop
iter_collect_example =
    iter_collect_lem slices 5 plenty budget-IsBounded (omega arith) (omega arith) digits-Steady
      (omega arith)
