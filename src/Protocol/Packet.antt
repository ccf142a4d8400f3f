-- ===== src/Protocol/Packet.antt =====
-- framework/protocol/protocol.go: `Encode` and `Decode` of a whole packet. The JSON of a handshake is
-- the parameter `unmarshal`, where none is an error; the two maps of the package are a state.
pub mod RoundTrip
pub mod Faults
use recreation_test.Base.{
  ℕ, ◌-◌, Bool, ltb, ◌==◌, if◌then◌else◌, List, [], ◌∷◌, ◌++◌, length, get_elem?, take, drop,
  Option, none, some, Outcome, ok, err, panic,
}
use recreation_test.Protocol.PackageType
use recreation_test.Protocol.Types.{
  Packet, Body, HandshakeBody, Message, Dictionary, Slice, DecodeError, data_len_invalid,
  handshake_json, EncodeError, unsupported_package_type, body_too_big, header_len, max_packet_size,
  empty, handshake, message,
}
use recreation_test.Protocol.Tools.{int_to_bytes, bytes_to_int}
use recreation_test.Protocol.Dictionary.{set_dictionary}
use recreation_test.Protocol.Message.{message_decode}

unfoldable pub encode : ℕ → List ℕ → Outcome EncodeError (List ℕ)
encode package_type body =
    if package_type == PackageType.none
    then err unsupported_package_type
    else if ltb max_packet_size (length body)
    then err body_too_big
    else ok (package_type ∷ (int_to_bytes (length body) ++ body))

abbrev body_of : Slice → Slice
body_of payload = record { elems = drop header_len payload.elems; spare = payload.spare }

-- `payload[0]` and `payload[1:HeaderLen]` of a payload that has a header.
abbrev type_byte : Slice → ℕ
type_byte payload = elim payload.elems [ [] ↦ 0 | b ∷ rest ↦ b ]

abbrev length_field : Slice → ℕ
length_field payload = bytes_to_int (take 3 (drop 1 payload.elems))

-- The dictionary of a handshake, if it has one, joins the package's maps.
abbrev learn : Dictionary → HandshakeBody → Dictionary
learn d body = elim body.sys.dict [ none ↦ d | some dict ↦ set_dictionary d dict ]

module _ (inflate : List ℕ → Option (List ℕ)) (unmarshal : List ℕ → Option HandshakeBody) where
  unfoldable pub decode_handshake :
      ℕ → ℕ → Dictionary → Slice → Outcome DecodeError Packet × Dictionary
  decode_handshake type len d payload = elim (unmarshal (drop header_len payload.elems)) [
    | none ↦ (err handshake_json, d)
    | some body ↦ (ok (record { type = type; len = len; body = handshake body }), learn d body)
  ]

  unfoldable pub decode_message : ℕ → ℕ → Dictionary → Slice → Outcome DecodeError Packet
  decode_message type len d payload = elim (message_decode inflate d (body_of payload)) [
    | ok m ↦ ok (record { type = type; len = len; body = message m })
    | err e ↦ err e
    | panic ↦ panic
  ]

  unfoldable pub decode : Dictionary → Slice → Outcome DecodeError Packet × Dictionary
  decode d payload =
      if ltb (length payload.elems) header_len
      then (err data_len_invalid, d)
      else let type = type_byte payload in
        let len = length_field payload in
        if type == PackageType.handshake
        then decode_handshake type len d payload
        else if type == PackageType.data_packet
        then (decode_message type len d payload, d)
        else (ok (record { type = type; len = len; body = empty }), d)

-- `HandshakeBody` and `MessageBody`: the body of a packet of that type, and nil for other types. A
-- packet of that type whose `Body` holds another value panics.
unfoldable handshake_body : Packet → Outcome (Unit {0}) (Option HandshakeBody)
handshake_body p =
    if p.type == PackageType.handshake
    then elim p.body [ handshake b ↦ ok (some b) | _ ↦ panic ]
    else ok none

unfoldable pub message_body : Packet → Outcome (Unit {0}) (Option Message)
message_body p =
    if p.type == PackageType.data_packet
    then elim p.body [ message m ↦ ok (some m) | _ ↦ panic ]
    else ok none
