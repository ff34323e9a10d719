-- ===== src/Prelude/Bits.antt =====
-- `x & (cap - 1)` with a power of two for `cap`, as src/ringbuf/ringbuf.c and src/hashmap/hashmap.c
-- compute a slot, is the remainder by `cap`.
use Prim.Native.Nat.{
  ℕ, zero, suc, ◌+◌, ◌-◌, ◌*◌, ◌/◌, ◌%◌, ◌^◌, ◌≤◌, ◌<◌, min, bit_and, digits, bit_and-bitwise,
}
use mathlib.Core.Path.{◌≡◌, refl, ap}
use native.Mathlib.Nat.{pow-suc, one-le-pow}
use native.Mathlib.Omega.{arith}

-- The digit recursion that `bit_and` stands for, on any fuel that is enough.
abbrev common : ℕ → ℕ → ℕ → ℕ
common fuel a b = digits (λ _. zero) min fuel a b

common_fuel : (m n a b : ℕ) → a ≤ m → a ≤ n → common m a b ≡ common n a b
common_fuel (suc m) (suc n) (suc a) b p q =
    omega (arith, common_fuel m n (suc a / 2) (b / 2) (omega arith) (omega arith))
common_fuel zero zero zero b p q = refl
common_fuel zero (suc n) zero b p q = refl
common_fuel (suc m) zero zero b p q = refl
common_fuel (suc m) (suc n) zero b p q = refl
common_fuel zero n (suc a) b p q = absurd (omega arith)
common_fuel (suc m) zero (suc a) b p q = absurd (omega arith)

-- One equation for the lowest bit, without the fuel.
bit_and-halve : (a b : ℕ) → bit_and a b ≡ bit_and (a / 2) (b / 2) * 2 + min (a % 2) (b % 2)
bit_and-halve zero b = omega (arith, bit_and-bitwise 0 b, bit_and-bitwise 0 (b / 2))
bit_and-halve (suc a) b = omega (
  arith,
  bit_and-bitwise (suc a) b,
  bit_and-bitwise (suc a / 2) (b / 2),
  common_fuel a (suc a / 2) (suc a / 2) (b / 2) (omega arith) (omega arith),
)

none_left : (fuel a : ℕ) → a ≤ fuel → bit_and a 0 ≡ 0
none_left fuel zero h = refl
none_left zero (suc a) h = absurd (omega arith)
none_left (suc fuel) (suc a) h =
    omega (arith, bit_and-halve (suc a) 0, none_left fuel (suc a / 2) (omega arith))

bit_and-low : (k q r : ℕ) → r < 2 ^ k → bit_and (q * 2 ^ k + r) (2 ^ k - 1) ≡ r
bit_and-low zero q r h = rw (none_left (q * 1 + r) (q * 1 + r) (omega arith)) (omega arith)
bit_and-low (suc k) q r h = ground (
  arith,
  bit_and-halve (q * 2 ^ suc k + r) (2 ^ suc k - 1),
  bit_and-low k q (r / 2) (omega (arith, pow-suc 2 k)),
  ap (λ (t : ℕ). q * t) (pow-suc 2 k),
  pow-suc 2 k,
)

pub bit_and-mask : (k a : ℕ) → bit_and a (2 ^ k - 1) ≡ a % 2 ^ k
bit_and-mask k a = ground (arith, one-le-pow k 2, bit_and-low k (a / 2 ^ k) (a % 2 ^ k))
