-- ===== src/Samples.antt =====
-- Instances of the parameters for the tests: an allocator that counts the bytes that are left,
-- memory that reads 0 before it is written, and the order of the numbers.
use Prim.Native.Nat.{compare}
use seqc.Prelude.{
  ℕ, ◌+◌, ◌-◌, none, some, if◌then◌else◌, ltb, lt→ltb, Allocator, IsBounded, Uninit, ptrdiff_max,
  arith,
}
use seqc.Order.{Compare, IsOrder}

instance abbrev pub budget : Allocator ℕ
budget = record {
  alloc = λ n h. if ltb ptrdiff_max n then none else if ltb h n then none else some (h - n);
  realloc = λ old n h.
      if ltb ptrdiff_max n then none else if ltb (h + old) n then none else some (h + old - n);
  free = λ n h. h + n;
  handle_size = 16;
}

pub budget-IsBounded : IsBounded budget
budget-IsBounded = record {
  alloc_bound = λ n h p. rw (lt→ltb ptrdiff_max n p);
  realloc_bound = λ old n h p. rw (lt→ltb ptrdiff_max n p);
}

instance abbrev pub zeroed : Uninit ℕ
zeroed = record { junk = 0 }

pub compare-IsOrder : IsOrder compare
compare-IsOrder = record {
  cmp_refl = λ a. ground arith;
  gt_of_lt = λ a b h. ground arith;
  lt_of_gt = λ a b h. ground arith;
  eq_symm = λ a b h. ground arith;
  lt_trans = λ a b c h k. ground arith;
  lt_eq = λ a b c h k. ground arith;
  eq_lt = λ a b c h k. ground arith;
}

instance abbrev pub ascending : Compare ℕ
ascending = record { cmp = compare; order = compare-IsOrder }

-- Memory for the runs, and too little of it.
abbrev pub plenty : ℕ
plenty = 1000

abbrev pub scarce : ℕ
scarce = 3
