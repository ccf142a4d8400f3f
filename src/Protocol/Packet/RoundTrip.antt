-- ===== src/Protocol/Packet/RoundTrip.antt =====
-- `Decode` reads back the packets that `Encode` wrote.
use recreation_test.Base.{
  [], false, lookup, string_eq, if_both, Option-cases, inl, inr, ℕ, ◌%◌, ◌≤◌, ◌<◌, ◌≡◌, ◌≢◌, refl,
  ltb, ◌==◌, if◌then◌else◌, List, ◌∷◌, ◌++◌, length, drop, Option, none, some, Outcome, ok, err,
  arith, All, Str,
}
use recreation_test.Protocol.PackageType
use recreation_test.Protocol.Types.{
  Packet, HandshakeBody, Message, Dictionary, Slice, DecodeError, header_len, message, empty,
  unsupported_package_type, body_too_big,
}
use recreation_test.Protocol.Tools.{int_to_bytes}
use recreation_test.Protocol.Tools.Laws.{bytes_to_int-int_to_bytes}
use recreation_test.Protocol.Dictionary.{is_some}
use recreation_test.Protocol.Dictionary.Inverse.{IsInverse, set_dictionary-IsInverse}
use recreation_test.Protocol.Message.{message_encode, msg_has_id, msg_has_route}
use recreation_test.Protocol.Message.RoundTrip.{IsSendable, received, message_decode-message_encode}
use recreation_test.Protocol.Packet.{
  type_byte, length_field, encode, decode, decode_handshake, decode_message, learn,
}

-- `Encode` fails exactly on the type `None` and on a body of more than 2^24 bytes; otherwise the
-- packet is the type, three length bytes and the body.
pub encode_cases :
    (t : ℕ) (body : List ℕ)
    → (encode PackageType.none body ≡ err unsupported_package_type)
      × (t ≢ PackageType.none → 16_777_216 < length body → encode t body ≡ err body_too_big)
      × (t ≢ PackageType.none
          → length body ≤ 16_777_216
          → encode t body ≡ ok (t ∷ (int_to_bytes (length body) ++ body)))
unfolding encode
encode_cases t body = (refl, λ h k. ground arith, λ h k. ground arith)

module _ (inflate : List ℕ → Option (List ℕ)) (unmarshal : List ℕ → Option HandshakeBody)
    (d : Dictionary) (spare : List ℕ) where
  decode_framed :
      (t : ℕ) (body : List ℕ)
      → t ≢ PackageType.handshake
      → t ≢ PackageType.data_packet
      → decode inflate unmarshal d
          (record { elems = t ∷ (int_to_bytes (length body) ++ body); spare = spare })
        ≡ (ok (record { type = t; len = length body % 16_777_216; body = empty }), d)
  unfolding decode int_to_bytes
  decode_framed t body h k = ground (arith, (bytes_to_int-int_to_bytes (length body)).0)

  decode_framed_message :
      (m : Message)
      → IsInverse d
      → IsSendable d m
      → decode inflate unmarshal d (record {
        elems =
            PackageType.data_packet
            ∷ (int_to_bytes (length (message_encode d m)) ++ message_encode d m);
        spare = spare;
      })
        ≡ (
          ok (record {
            type = PackageType.data_packet;
            len = length (message_encode d m) % 16_777_216;
            body = message (received d m);
          }),
          d,
        )
  unfolding decode int_to_bytes decode_message
  decode_framed_message m v s = ground (
    arith,
    (bytes_to_int-int_to_bytes (length (message_encode d m))).0,
    message_decode-message_encode inflate d m spare v s,
  )

-- A packet of a type with no body of its own comes back with its type. Its length field is the length
-- of the body for every body that `Encode` takes but the longest: for 2^24 bytes the field reads 0.
pub decode-encode :
    (inflate : List ℕ → Option (List ℕ)) (unmarshal : List ℕ → Option HandshakeBody)
    (d : Dictionary) (t : ℕ) (body packet spare : List ℕ)
    → t ≢ PackageType.handshake
    → t ≢ PackageType.data_packet
    → encode t body ≡ ok packet
    → decode inflate unmarshal d (record { elems = packet; spare = spare }) ≡ (
      ok (record {
        type = t;
        len = if length body == 16_777_216 then 0 else length body;
        body = empty;
      }),
      d,
    )
unfolding encode
decode-encode inflate unmarshal d t body packet spare h k e =
    ground (arith, decode_framed inflate unmarshal d spare t body)

-- A sendable message in a data packet is decoded to what `received` says of it; the dictionary stays.
pub decode-framed :
    (inflate : List ℕ → Option (List ℕ)) (unmarshal : List ℕ → Option HandshakeBody)
    (d : Dictionary) (m : Message) (packet spare : List ℕ)
    → IsInverse d
    → IsSendable d m
    → encode PackageType.data_packet (message_encode d m) ≡ ok packet
    → decode inflate unmarshal d (record { elems = packet; spare = spare }) ≡ (
      ok (record {
        type = PackageType.data_packet;
        len = length (message_encode d m) % 16_777_216;
        body = message (received d m);
      }),
      d,
    )
unfolding encode
decode-framed inflate unmarshal d m packet spare v s e =
    ground (arith, decode_framed_message inflate unmarshal d spare m)

-- A sendable message that travels in a data packet is decoded to one with its type and its bytes, with its id
-- if the type has one and else with 0, with its route if the type has one and else with the empty one,
-- which is marked as compressed exactly if the dictionary knows it; the dictionary stays. The error mark of
-- the message does not travel: it is not set in what is decoded, whatever it was.
pub decode-encode_message :
    (inflate : List ℕ → Option (List ℕ)) (unmarshal : List ℕ → Option HandshakeBody)
    (d : Dictionary) (m : Message) (packet spare : List ℕ)
    → IsInverse d
    → IsSendable d m
    → encode PackageType.data_packet (message_encode d m) ≡ ok packet
    → (m' : Message) × (decode inflate unmarshal d (record { elems = packet; spare = spare }) ≡ (
      ok (record {
        type = PackageType.data_packet;
        len = length (message_encode d m) % 16_777_216;
        body = message m';
      }),
      d,
    ))
      × (m'.type ≡ m.type)
      × (m'.data_bytes ≡ m.data_bytes)
      × (m'.id ≡ (if msg_has_id m.type then m.id else 0))
      × (m'.route ≡ (if msg_has_route m.type then m.route else []))
      × (m'.route_compressed
          ≡ (if msg_has_route m.type then is_some (lookup m.route d.routes) else false))
      × (m'.error ≡ false)
decode-encode_message inflate unmarshal d m packet spare v s e = (
  received d m,
  decode-framed inflate unmarshal d m packet spare v s e,
  refl,
  refl,
  refl,
  refl,
  refl,
  refl,
)

-- The codes that the JSON decoder yields are 16-bit numbers.
abbrev pub IsNarrow : (List ℕ → Option HandshakeBody) → Type 0
IsNarrow unmarshal =
    (text : List ℕ) (body : HandshakeBody) (dict : List (Str × ℕ))
    → unmarshal text ≡ some body
    → body.sys.dict ≡ some dict
    → All (λ entry. entry.1 < 65_536) dict

module _ (inflate : List ℕ → Option (List ℕ)) (unmarshal : List ℕ → Option HandshakeBody)
    (d : Dictionary) (payload : Slice) (narrow : IsNarrow unmarshal) (v : IsInverse d) where
  learn-IsInverse :
      (text : List ℕ) (body : HandshakeBody) (dict : Option (List (Str × ℕ)))
      → unmarshal text ≡ some body
      → body.sys.dict ≡ dict
      → IsInverse (learn d body)
  learn-IsInverse text body none e k = rw k v
  learn-IsInverse text body (some dict) e k =
      rw k (set_dictionary-IsInverse d dict v (narrow text body dict e k))

  decode_handshake-IsInverse :
      (type len : ℕ) → IsInverse (decode_handshake inflate unmarshal type len d payload).1
  unfolding decode_handshake
  decode_handshake-IsInverse type len =
      let text = drop header_len payload.elems in
      elim (Option-cases (unmarshal text)) [
        | inl bad ↦ rw (bad, decode_handshake) v
        | inr (body, good) ↦
            rw (good, decode_handshake) (learn-IsInverse text body body.sys.dict good refl)
      ]

  decode-IsInverse_lem : IsInverse (decode inflate unmarshal d payload).1
  unfolding decode
  decode-IsInverse_lem =
      let P : Outcome DecodeError Packet × Dictionary → Type 0 = λ r. IsInverse r.1 in
      let t = type_byte payload in
      let len = length_field payload in
      let shaken = decode_handshake inflate unmarshal t len d payload in
      let told = decode_message inflate unmarshal t len d payload in
      let bare : Outcome DecodeError Packet × Dictionary =
        (ok (record { type = t; len = len; body = empty }), d) in
      let other = if_both P (t == PackageType.data_packet) (told, d) bare v v in
      if_both P (ltb (length payload.elems) header_len) _ _ v (
        if_both P (t == PackageType.handshake) shaken
          (if t == PackageType.data_packet then (told, d) else bare)
          (decode_handshake-IsInverse t len) other)

-- Whatever packet comes in, the two maps of the package stay inverse to one another, if the JSON
-- decoder yields 16-bit codes.
pub decode-IsInverse :
    (inflate : List ℕ → Option (List ℕ)) (unmarshal : List ℕ → Option HandshakeBody)
    (d : Dictionary) (payload : Slice)
    → IsNarrow unmarshal
    → IsInverse d
    → IsInverse (decode inflate unmarshal d payload).1
decode-IsInverse = decode-IsInverse_lem
