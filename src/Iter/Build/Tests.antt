-- ===== src/Iter/Build/Tests.antt =====
-- The claims about the bytes that adaptors hold, with an allocator that counts them.
use seqc.Prelude.{if◌then◌else◌, ℕ, ◌+◌, ◌-◌, none, some, ltb, ◌==◌, Allocator, arith}
use seqc.Samples.{zeroed}
use seqc.Iter.{Source}
use seqc.Iter.Slice.{SliceIter, slice_source, slice_drop}
use seqc.Iter.Sample.{at}
use seqc.Iter.Each.{map_source, sizeof_map, enum_source, sizeof_enum}
use seqc.Iter.Prefix.{take_source, sizeof_take, take_while_source, sizeof_take_while}
use seqc.Iter.Suffix.{skip_source, sizeof_skip, skip_while_source, sizeof_skip_while}
use seqc.Iter.Select.{filter_source, sizeof_filter, dedup_source, sizeof_dedup}
use seqc.Iter.Peek.{peekable_source, sizeof_peekable}
use seqc.Iter.Build.{
  iter_filter, iter_take, iter_take_while, iter_skip, iter_skip_while, iter_enumerate,
  iter_peekable, iter_dedup, iter_map,
}
use seqc.Iter.Build.Release.{IsAccount, Releases, Built}
use seqc.Iter.Build.Account.{adaptors-Built}

-- The heap is the number of bytes that were given out.
instance abbrev meter : Allocator ℕ
meter = record {
  alloc = λ n h. if ltb 4000 (h + n) then none else some (h + n);
  realloc = λ old n h. none;
  free = λ n h. h - n;
  handle_size = 16;
}

meter-IsAccount : IsAccount meter (λ h. h)
meter-IsAccount = record {
  alloc_used = λ n h h' given. ground arith;
  free_used = λ n h enough. omega arith;
}

abbrev counted : Source ℕ (SliceIter ℕ) ℕ
counted = slice_source 8

counted-Releases : Releases (λ h. h) (counted.destroy (at 0)) 32
unfolding slice_source slice_drop
counted-Releases h enough = omega arith

adaptors-Built_example :
    (Built
        (filter_source counted (ltb 5) 5)
        (λ h. h)
        32
        (sizeof_filter counted 16)
        100
        (iter_filter counted (some (at 0)) 100)
      × Built
          (take_source counted)
          (λ h. h)
          32
          (sizeof_take counted 16)
          100
          (iter_take counted 2 (some (at 0)) 100)
      × Built
          (take_while_source counted (ltb 5))
          (λ h. h)
          32
          (sizeof_take_while counted 16)
          100
          (iter_take_while counted (some (at 0)) 100)
      × Built
          (skip_source counted)
          (λ h. h)
          32
          (sizeof_skip counted 16)
          100
          (iter_skip counted 2 (some (at 0)) 100)
      × Built
          (skip_while_source counted (ltb 5) 5)
          (λ h. h)
          32
          (sizeof_skip_while counted 16)
          100
          (iter_skip_while counted (some (at 0)) 100))
    × (Built
          (map_source counted (λ n. n + 1) 8)
          (λ h. h)
          32
          (sizeof_map counted 16 + counted.elem_size)
          100
          (iter_map counted (some (at 0)) 100)
        × Built
            (enum_source counted)
            (λ h. h)
            32
            (sizeof_enum counted 16 + counted.elem_size)
            100
            (iter_enumerate counted (some (at 0)) 100)
        × Built
            (dedup_source counted (λ m n. m == n) 5)
            (λ h. h)
            32
            (sizeof_dedup counted 16 + counted.elem_size)
            100
            (iter_dedup counted (some (at 0)) 100)
        × Built
            (peekable_source counted)
            (λ h. h)
            32
            (sizeof_peekable counted 16 + counted.elem_size)
            100
            (iter_peekable counted (some (at 0)) 100))
adaptors-Built_example =
    adaptors-Built counted (λ h. h) meter-IsAccount (at 0) 32 100 counted-Releases (omega arith)
      (λ n. n + 1) 8 2 (ltb 5) (λ m n. m == n) 5
