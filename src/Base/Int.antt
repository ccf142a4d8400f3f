-- ===== src/Base/Int.antt =====
-- Signed integers over the native numbers, with Go's tests on `int`, of which no sum is taken; and `int32`
-- by its bit pattern, a number below 2 ^ 32, whose sums wrap around.
use Prim.Native.Nat.{ℕ, ◌+◌, ◌%◌}
use mathlib.Core.Bool.{Bool, true, false}
use recreation_test.Base.Tests.{ltb, ◌==◌}

-- `negsuc n` is -(n + 1).
pub data ℤ : Type 0 where
  pos : ℕ → ℤ
  negsuc : ℕ → ℤ

abbrev pub ltb_ℤ : ℤ → ℤ → Bool
ltb_ℤ (pos a) (pos b) = ltb a b
ltb_ℤ (pos a) (negsuc b) = false
ltb_ℤ (negsuc a) (pos b) = true
ltb_ℤ (negsuc a) (negsuc b) = ltb b a

abbrev pub eq_ℤ : ℤ → ℤ → Bool
eq_ℤ (pos a) (pos b) = a == b
eq_ℤ (pos a) (negsuc b) = false
eq_ℤ (negsuc a) (pos b) = false
eq_ℤ (negsuc a) (negsuc b) = a == b

-- `int32(n)`.
abbrev pub to_int32 : ℕ → ℕ
to_int32 n = n % 4_294_967_296

-- `atomic.AddInt32` by 1 and by -1.
abbrev pub int32_suc : ℕ → ℕ
int32_suc n = (n + 1) % 4_294_967_296

abbrev pub int32_pred : ℕ → ℕ
int32_pred n = (n + 4_294_967_295) % 4_294_967_296

-- `a < b` on `int32`: a pattern of 2 ^ 31 or more is a negative number.
abbrev pub ltb_int32 : ℕ → ℕ → Bool
ltb_int32 a b = ltb ((a + 2_147_483_648) % 4_294_967_296) ((b + 2_147_483_648) % 4_294_967_296)

-- `atomic.AddInt64` by 1, on bit patterns.
abbrev pub int64_suc : ℕ → ℕ
int64_suc n = (n + 1) % 18_446_744_073_709_551_616
