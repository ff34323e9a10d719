-- ===== src/Prelude/Int.antt =====
-- The `int` differences of src/avl/avl.c: as much of the integers as a balance factor needs.
-- `negsuc n` is -(n + 1).
use Prim.Native.Nat.{ℕ, suc, ◌+◌, ◌-◌}
use mathlib.Core.Path.{◌≡◌}
use mathlib.Core.Bool.{Bool}
use native.Mathlib.Omega.{arith}
use seqc.Prelude.Tests.{ltb, leb, if◌then◌else◌}

pub data ℤ : Type 0 where
  pos : ℕ → ℤ
  negsuc : ℕ → ℤ

abbrev pub pos_part : ℤ → ℕ
pos_part (pos n) = n
pos_part (negsuc n) = 0

abbrev pub neg_part : ℤ → ℕ
neg_part (pos n) = 0
neg_part (negsuc n) = suc n

-- a - b
unfoldable pub sub_ℕ : ℕ → ℕ → ℤ
sub_ℕ a b = if leb b a then pos (a - b) else negsuc (b - a - 1)

unfoldable pub ltb_ℤ : ℤ → ℤ → Bool
ltb_ℤ a b = ltb (pos_part a + neg_part b) (pos_part b + neg_part a)

-- The tests of a difference, as tests of numbers.
pub above_one : (a b : ℕ) → ltb_ℤ (pos 1) (sub_ℕ a b) ≡ ltb (b + 1) a
unfolding sub_ℕ ltb_ℤ
above_one a b = ground arith

pub below_minus_one : (a b : ℕ) → ltb_ℤ (sub_ℕ a b) (negsuc 0) ≡ ltb (a + 1) b
unfolding sub_ℕ ltb_ℤ
below_minus_one a b = ground arith

pub below_zero : (a b : ℕ) → ltb_ℤ (sub_ℕ a b) (pos 0) ≡ ltb a b
unfolding sub_ℕ ltb_ℤ
below_zero a b = ground arith

pub above_zero : (a b : ℕ) → ltb_ℤ (pos 0) (sub_ℕ a b) ≡ ltb b a
unfolding sub_ℕ ltb_ℤ
above_zero a b = ground arith
