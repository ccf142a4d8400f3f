-- ===== src/Protocol/Tools/Laws.antt =====
-- What the length bytes of tools.go keep of a length.
use recreation_test.Base.{ℕ, ◌+◌, ◌*◌, ◌/◌, ◌%◌, ◌<◌, ◌≡◌, [], ◌∷◌, arith, ◌∙◌, ap, All}
use recreation_test.Base.{bit_or}
use recreation_test.Base.Bits.{bit_or-disjoint}
use recreation_test.Protocol.Tools.{int_to_bytes, bytes_to_int}

pub bytes_to_int_sum :
    (b0 b1 b2 : ℕ)
    → b1 < 256
    → b2 < 256
    → bytes_to_int (b0 ∷ b1 ∷ b2 ∷ []) ≡ b0 * 65_536 + b1 * 256 + b2
unfolding bytes_to_int
bytes_to_int_sum b0 b1 b2 h1 h2 =
    ap (λ (t : ℕ). bit_or t b2) (bit_or-disjoint 16 b0 (b1 * 256) (omega arith))
    ∙ ap (λ (t : ℕ). bit_or t b2) (omega arith)
    ∙ bit_or-disjoint 8 (b0 * 256 + b1) b2 h2
    ∙ omega arith

-- Decoding the three length bytes of any length gives the length modulo 2^24; in particular it
-- is lost exactly from 2^24 on, and each of the bytes fits a byte.
pub bytes_to_int-int_to_bytes :
    (n : ℕ) → (bytes_to_int (int_to_bytes n) ≡ n % 16_777_216) × All (λ b. b < 256) (int_to_bytes n)
unfolding int_to_bytes
bytes_to_int-int_to_bytes n = (
  bytes_to_int_sum (n / 65_536 % 256) (n / 256 % 256) (n % 256) (omega arith) (omega arith)
      ∙ omega arith,
  omega arith,
)
