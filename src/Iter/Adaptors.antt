-- ===== src/Iter/Adaptors.antt =====
-- What the adaptors of src/iter/iter.c make of the elements of their sources.
use mathlib.Core.List.{map}
use seqc.Prelude.{ℕ, suc, ◌<◌, Bool, false, none, List, length, ◌++◌, take, drop, Allocator}
use seqc.Iter.{Source, Produces, ends, gives, Yields}
use seqc.Iter.Each.{map_source, enum_source, numbered, map-Produces, enum-Produces}
use seqc.Iter.Prefix.{take_source, take_while_source, while_holds, take-Yields, take_while-Yields}
use seqc.Iter.Suffix.{
  skip_source, skip_while_source, from_failing, skip-Produces, skip_while-Produces,
}
use seqc.Iter.Select.{filter_source, dedup_source, filter, runs, filter-Produces, dedup-Produces}
use seqc.Iter.Pair.{
  Steady, stops, writes, chain_source, zip_source, zip, chain-Produces, zip-Yields,
}

-- Calls that leave every heap as it is, in any one heap.
pub Steady-Produces {ℓ κ μ} :
    {A : Type ℓ} {S : Type κ} {H : Type μ} {src : Source A S H} {s s' : S} {xs : List A} (h : H)
    → Steady src s xs s'
    → Produces src s h xs s' h
Steady-Produces h (stops e) = ends (e h)
Steady-Produces h (writes e p) = gives (e h) (Steady-Produces h p)

module _ {ℓ κ μ} {A : Type ℓ} {S : Type κ} {H : Type μ} ⦃al : Allocator H⦄
    {src : Source A S H} where
  -- Of a source that yields some elements, iter_map yields their images, iter_enumerate the
  -- elements with their indices, iter_take the first n, iter_take_while those in front of the first
  -- that fails the test, and iter_skip those behind the first n, and each then ends.
  pub passing-Yields :
      (f : A → A) (size n : ℕ) (pred : A → Bool) {s s' : S} {h h' : H} {xs : List A}
      → Produces src s h xs s' h'
      → Yields (map_source src f size) (record { source = s }) h (map f xs)
        × Yields (enum_source src) (record { source = s; index = 0 }) h (numbered 0 xs)
        × Yields (take_source src) (record { source = s; remaining = n }) h (take n xs)
        × Yields (take_while_source src pred) (record { source = s }) h (while_holds pred xs)
        × Yields (skip_source src) (record { source = s; remaining = n }) h (drop n xs)
  passing-Yields f size n pred p =
      let (i, enumerated) = enum-Produces 0 p in
      let (r, skipped) = skip-Produces n p in
      (
        (_, _, map-Produces f size p),
        (_, _, enumerated),
        take-Yields n p,
        take_while-Yields pred p,
        (_, _, skipped),
      )

  -- Of a source that yields some elements, and with fuel for more rounds than there are,
  -- iter_skip_while yields the elements from the first on that fails the test, iter_filter those
  -- that pass it, and iter_dedup those that are not equal to the one before, and each then ends.
  pub searching-Yields :
      (pred : A → Bool) (same : A → A → Bool) (fuel : ℕ) {s s' : S} {h h' : H} {xs : List A}
      → Produces src s h xs s' h'
      → length xs < suc fuel
      → Yields
          (skip_while_source src pred (suc fuel))
          (record { source = s; done_skipping = false })
          h
          (from_failing pred xs)
        × Yields (filter_source src pred (suc fuel)) (record { source = s }) h (filter pred xs)
        × Yields
            (dedup_source src same (suc fuel))
            (record { source = s; last = none })
            h
            (runs same xs)
  searching-Yields pred same fuel p less =
      let (d, skipped) = skip_while-Produces pred fuel p less in
      let (r, deduped) = dedup-Produces same fuel p less in
      ((_, _, skipped), (_, _, filter-Produces pred fuel p less), (_, _, deduped))

module _ {ℓ κ μ ν} {A : Type ℓ} {S : Type κ} {T : Type μ} {H : Type ν} ⦃al : Allocator H⦄
    (a : Source A S H) (b : Source A T H) where
  -- Of two sources that yield some elements without touching the heap, iter_chain yields the
  -- elements of the first and then those of the second, and iter_zip pairs them until one of the
  -- sources ends.
  pub pair-Yields :
      (h : H) {s s' : S} {t t' : T} {xs ys : List A}
      → Steady a s xs s'
      → Steady b t ys t'
      → Yields
          (chain_source a b)
          (record { first = s; second = t; done_first = false })
          h
          (xs ++ ys)
        × Yields (zip_source a b) (record { a = s; b = t }) h (zip xs ys)
  pair-Yields h p q =
      ((_, _, chain-Produces a b (Steady-Produces h p) (Steady-Produces h q)), zip-Yields a b h p q)
