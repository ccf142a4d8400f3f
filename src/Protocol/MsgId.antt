-- ===== src/Protocol/MsgId.antt =====
-- framework/protocol/protocol.go: the message id, seven bits a byte, lowest group first, with the
-- top bit set on every byte but the last. An id is a Go `uint` of 64 bits.
pub mod RoundTrip
use recreation_test.Base.{
  ℕ, zero, suc, ◌+◌, ◌*◌, ◌/◌, ◌%◌, ◌^◌, ◌<◌, List, [], ◌∷◌, ◌++◌, arith, ltb, ◌==◌, if◌then◌else◌,
  bit_and,
}
use mathlib.Core.Logic.{dite}
use mathlib.Core.WellFounded.{Acc}
use native.Mathlib.Decide.{dec_lt}
use recreation_test.Base.Descent.{lt_wf}

pub group_shrinks : (id : ℕ) → 0 < id / 2 ^ 7 → id / 2 ^ 7 < id
group_shrinks id h = omega arith

-- `id >>= 7` falls until it is 0.
encode_msg_id_loop : (id : ℕ) → Acc ◌<◌ id → List ℕ → List ℕ
encode_msg_id_loop id (Acc.intro _ smaller) buf =
    let b = id % 128 in
    dite (dec_lt 0 (id / 2 ^ 7))
      (λ more.
        encode_msg_id_loop (id / 2 ^ 7) (smaller _ (group_shrinks id more))
          (buf ++ ((b + 128) ∷ [])))
      (λ _. buf ++ (b ∷ []))

unfoldable pub encode_msg_id : ℕ → List ℕ → List ℕ
unfolding encode_msg_id_loop lt_wf
encode_msg_id id buf = encode_msg_id_loop id (lt_wf.apply id) buf

-- `id += uint(b&0x7F) << uint(7*k)`: a shift by 64 or more leaves 0.
abbrev pub add_group : ℕ → ℕ → ℕ → ℕ
add_group id b k = (id + bit_and b 0x7F * 2 ^ (7 * k) % 2 ^ 64) % 2 ^ 64

-- The bytes are those from offset 1 on, and `k` of them are read. The result is the id with the
-- new offset, which stays 1 if no byte ends the id.
unfoldable pub decode_msg_id_loop : List ℕ → ℕ → ℕ → ℕ × ℕ
decode_msg_id_loop [] k id = (id, 1)
decode_msg_id_loop (b ∷ rest) k id =
    let id' = add_group id b k in
    let more = decode_msg_id_loop rest (k + 1) id' in if ltb b 128 then (id', k + 2) else more
