-- ===== src/Protocol/Packet/Faults.antt =====
-- What `Decode` does not check.
use recreation_test.Base.{ℕ, ◌≡◌, List, [], ◌∷◌, Option, Outcome, ok, err, panic, arith}
use recreation_test.Protocol.PackageType
use recreation_test.Protocol.Types.{Packet, HandshakeBody, Dictionary, DecodeError}
use recreation_test.Protocol.Message.Faults.{message_decode_empty}
use recreation_test.Protocol.Packet.{decode, decode_message, decode_handshake}

-- A data packet that is a bare header crashes the decoder, whatever its length field says and
-- whatever stands behind it in the buffer.
pub decode_bare_header :
    (inflate : List ℕ → Option (List ℕ)) (unmarshal : List ℕ → Option HandshakeBody)
    (d : Dictionary) (b0 b1 b2 : ℕ) (spare : List ℕ)
    → decode inflate unmarshal d
        (record { elems = PackageType.data_packet ∷ b0 ∷ b1 ∷ b2 ∷ []; spare = spare })
      ≡ (panic, d)
unfolding decode decode_message
decode_bare_header inflate unmarshal d b0 b1 b2 spare =
    ground (arith, message_decode_empty inflate d spare)

-- A result with the length field of its packet blanked out.
abbrev pub without_len : Outcome DecodeError Packet → Outcome DecodeError Packet
without_len (ok p) = ok (record p { len = 0 })
without_len (err e) = err e
without_len panic = panic

-- The three length bytes are never compared with the packet: other bytes in their place change the
-- `Len` field of the result and nothing else, neither the outcome nor the dictionary.
pub decode_ignores_len :
    (inflate : List ℕ → Option (List ℕ)) (unmarshal : List ℕ → Option HandshakeBody)
    (d : Dictionary) (t b0 b1 b2 c0 c1 c2 : ℕ) (rest spare : List ℕ)
    → let r =
        decode inflate unmarshal d (record { elems = t ∷ b0 ∷ b1 ∷ b2 ∷ rest; spare = spare }) in
      let q =
        decode inflate unmarshal d (record { elems = t ∷ c0 ∷ c1 ∷ c2 ∷ rest; spare = spare }) in
      (without_len r.0 ≡ without_len q.0) × (r.1 ≡ q.1)
unfolding decode decode_message decode_handshake
decode_ignores_len inflate unmarshal d t b0 b1 b2 c0 c1 c2 rest spare = (ground arith, ground arith)
