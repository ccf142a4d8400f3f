-- ===== src/Protocol/Tools.antt =====
-- framework/protocol/tools.go: the three length bytes of a packet header, highest first. The
-- buffer pool of `IntToBytes` has no effect on the result, which is a fresh slice.
pub mod Laws
use recreation_test.Base.{ℕ, ◌+◌, ◌*◌, ◌/◌, ◌%◌, ◌^◌, List, [], ◌∷◌, bit_or}

-- `byte(n & 0xFF)`: the conversion to a byte keeps the same eight bits as the mask.
abbrev pub low_byte : ℕ → ℕ
low_byte n = n % 2 ^ 8

unfoldable pub int_to_bytes : ℕ → List ℕ
int_to_bytes n = low_byte (n / 2 ^ 16) ∷ low_byte (n / 2 ^ 8) ∷ low_byte n ∷ []

-- The loop for fewer than three bytes, in 64-bit arithmetic that such inputs cannot overflow.
bytes_to_int_loop : ℕ → List ℕ → ℕ
bytes_to_int_loop result [] = result
bytes_to_int_loop result (v ∷ b) = bytes_to_int_loop (result * 2 ^ 8 + v) b

unfoldable pub bytes_to_int : List ℕ → ℕ
unfolding bytes_to_int_loop
bytes_to_int (b0 ∷ b1 ∷ b2 ∷ rest) = bit_or (bit_or (b0 * 2 ^ 16) (b1 * 2 ^ 8)) b2
bytes_to_int b = bytes_to_int_loop 0 b
