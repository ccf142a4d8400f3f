-- ===== src/Base/Bits.antt =====
-- Masks on one byte as arithmetic: each law is a table, checked by evaluation.
use Prim.Native.Nat.{
  ℕ, zero, suc, ◌+◌, ◌*◌, ◌/◌, ◌%◌, ◌^◌, ◌<◌, ◌≤◌, max, min, digits, bit_and, bit_and-bitwise,
  bit_or, bit_or-bitwise,
}
use mathlib.Core.Path.{◌≡◌, refl, ap}
use mathlib.Core.Bool.{Bool, true, ◌&&◌}
use native.Mathlib.Omega.{arith}
use native.Mathlib.Nat.{pow-suc}
use recreation_test.Base.Tests.{◌==◌, ==_iff}

-- The test holds for each number under the limit.
passes : (ℕ → Bool) → ℕ → Bool
passes test zero = true
passes test (suc limit) = passes test limit && test limit

passes-at : (test : ℕ → Bool) (limit v : ℕ) → v < limit → passes test limit ≡ true → test v ≡ true
unfolding passes
passes-at test zero v small whole = absurd (omega arith)
passes-at test (suc limit) v small whole = ground (arith, passes-at test limit v)

low_seven_table : passes (λ b. bit_and b 0x7F == b % 128) 256 ≡ true
unfolding passes
low_seven_table = refl

pub bit_and-low_seven : (b : ℕ) → b < 256 → bit_and b 0x7F ≡ b % 128
bit_and-low_seven b h = (==_iff _ _).0 (passes-at _ 256 b h low_seven_table)

low_three_table : passes (λ b. bit_and b 0x07 == b % 8) 256 ≡ true
unfolding passes
low_three_table = refl

pub bit_and-low_three : (b : ℕ) → b < 256 → bit_and b 0x07 ≡ b % 8
bit_and-low_three b h = (==_iff _ _).0 (passes-at _ 256 b h low_three_table)

-- `|` by the lowest digit.
abbrev or_digits : ℕ → ℕ → ℕ → ℕ
or_digits n a b = digits (λ b. b) max n a b

or_digits_fuel : (n m a b : ℕ) → a ≤ n → a ≤ m → or_digits n a b ≡ or_digits m a b
or_digits_fuel zero zero a b p q = refl
or_digits_fuel zero (suc m) zero b p q = refl
or_digits_fuel zero (suc m) (suc a) b p q = absurd (omega arith)
or_digits_fuel (suc n) zero zero b p q = refl
or_digits_fuel (suc n) zero (suc a) b p q = absurd (omega arith)
or_digits_fuel (suc n) (suc m) zero b p q = refl
or_digits_fuel (suc n) (suc m) (suc a) b p q =
    omega (arith, or_digits_fuel n m (suc a / 2) (b / 2) (omega arith) (omega arith))

zero-bit_or : (b : ℕ) → bit_or 0 b ≡ b
zero-bit_or b = bit_or-bitwise 0 b

bit_or_step : (a b : ℕ) → bit_or a b ≡ bit_or (a / 2) (b / 2) * 2 + max (a % 2) (b % 2)
bit_or_step zero b = omega (arith, zero-bit_or b, zero-bit_or (b / 2))
bit_or_step (suc a) b = omega (
  arith,
  bit_or-bitwise (suc a) b,
  bit_or-bitwise (suc a / 2) (b / 2),
  or_digits_fuel a (suc a / 2) (suc a / 2) (b / 2) (omega arith) (omega arith),
)

bit_or-zero_below : (n a : ℕ) → a ≤ n → bit_or a 0 ≡ a
bit_or-zero_below n zero h = zero-bit_or 0
bit_or-zero_below zero (suc a) h = absurd (omega arith)
bit_or-zero_below (suc n) (suc a) h =
    omega (arith, bit_or_step (suc a) 0, bit_or-zero_below n (suc a / 2) (omega arith))

half : (n : ℕ) → n * 2 / 2 ≡ n
half n = omega arith

-- Joining bit fields that do not overlap is addition.
pub bit_or-disjoint : (k a b : ℕ) → b < 2 ^ k → bit_or (a * 2 ^ k) b ≡ a * 2 ^ k + b
bit_or-disjoint zero a zero h = omega (arith, bit_or-zero_below (a * 1) (a * 1) (omega arith))
bit_or-disjoint zero a (suc b) h = absurd (omega arith)
bit_or-disjoint (suc k) a b h =
    let shifted : a * 2 ^ suc k ≡ a * 2 ^ k * 2 =
      omega (arith, ap (λ (t : ℕ). a * t) (pow-suc 2 k)) in
    rw shifted (
      omega (
        arith,
        bit_or_step (a * 2 ^ k * 2) b,
        ap (λ (t : ℕ). bit_or t (b / 2)) (half (a * 2 ^ k)),
        bit_or-disjoint k a (b / 2) (omega (arith, pow-suc 2 k)),
      ))

and_digits-le : (n a b : ℕ) → digits (λ b. zero) min n a b ≤ b
and_digits-le zero a b = omega arith
and_digits-le (suc n) zero b = omega arith
and_digits-le (suc n) (suc a) b = omega (arith, and_digits-le n (suc a / 2) (b / 2))

-- A masked number is at most the mask.
pub bit_and-le : (a b : ℕ) → bit_and a b ≤ b
bit_and-le a b = omega (arith, bit_and-bitwise a b, and_digits-le a a b)
