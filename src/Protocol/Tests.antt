-- ===== src/Protocol/Tests.antt =====
-- framework/protocol at concrete inputs: runs, and the theorems where their hypotheses hold.
use recreation_test.Base.{
  if◌then◌else◌, ℕ, ◌%◌, ◌≡◌, refl, List, [], ◌∷◌, Option, none, some, Str, bytes, true, false,
  lookup, insert, arith, length, ok, nat_eq, string_eq,
}
use native.Mathlib.Decide.{dec_lt}
use recreation_test.Protocol.PackageType
use recreation_test.Protocol.MessageType
use recreation_test.Protocol.Types.{Message, Dictionary, HandshakeBody, message, empty}
use recreation_test.Protocol.Tools.{int_to_bytes}
use recreation_test.Protocol.Dictionary.{is_some, set_dictionary, trim_space}
use recreation_test.Protocol.Dictionary.Inverse.{IsInverse}
use recreation_test.Protocol.MsgId.{encode_msg_id}
use recreation_test.Protocol.Message.{
  message_encode, msg_has_id, msg_has_route, encode_msg_flag, encode_msg_route,
}
use recreation_test.Protocol.Message.RoundTrip.{IsSendable}
use recreation_test.Protocol.Packet.{encode, decode}
use recreation_test.Protocol.Packet.RoundTrip.{decode-encode, decode-encode_message}

abbrev no_routes : Dictionary
no_routes = record { routes = []; codes = [] }

no_routes-IsInverse : IsInverse no_routes
unfolding lookup
no_routes-IsInverse = record {
  there = λ r c e. cc;
  back = λ r c e. cc;
  narrow = λ r c e. absurd (cc);
}

abbrev two_routes : List (Str × ℕ)
two_routes = (bytes " a.b.c", 1) ∷ (bytes "d.e.f", 2) ∷ []

abbrev no_inflate : List ℕ → Option (List ℕ)
no_inflate text = none

abbrev no_json : List ℕ → Option HandshakeBody
no_json text = none

-- A request for a route without a code.
abbrev request_300 : Message
request_300 = record {
  type = MessageType.request;
  id = 300;
  route = bytes "a.b.c";
  data_bytes = 1 ∷ 2 ∷ [];
  route_compressed = false;
  error = true;
}

request_300-IsSendable : IsSendable no_routes request_300
request_300-IsSendable = omega arith

set_dictionary_trims : lookup (bytes "a.b.c") (set_dictionary no_routes two_routes).routes ≡ some 1
unfolding set_dictionary lookup insert trim_space
set_dictionary_trims = refl

message_encode_runs :
    message_encode no_routes request_300 ≡ 0 ∷ 172 ∷ 2 ∷ 5 ∷ 97 ∷ 46 ∷ 98 ∷ 46 ∷ 99 ∷ 1 ∷ 2 ∷ []
unfolding message_encode encode_msg_flag encode_msg_id encode_msg_route msg_has_id msg_has_route
    lookup dec_lt
message_encode_runs = refl

decode-encode_example :
    decode no_inflate no_json no_routes (record { elems = 3 ∷ 0 ∷ 0 ∷ 1 ∷ 9 ∷ []; spare = [] })
    ≡ (ok (record { type = 3; len = 1; body = empty }), no_routes)
unfolding encode int_to_bytes
decode-encode_example =
    decode-encode no_inflate no_json no_routes 3 (9 ∷ []) (3 ∷ 0 ∷ 0 ∷ 1 ∷ 9 ∷ []) []
      (λ e. absurd (omega arith)) (λ e. absurd (omega arith)) refl

abbrev framed : List ℕ
framed = 4 ∷ 0 ∷ 0 ∷ 11 ∷ 0 ∷ 172 ∷ 2 ∷ 5 ∷ 97 ∷ 46 ∷ 98 ∷ 46 ∷ 99 ∷ 1 ∷ 2 ∷ []

encode-framed : encode PackageType.data_packet (message_encode no_routes request_300) ≡ ok framed
unfolding encode int_to_bytes
encode-framed = rw message_encode_runs refl

decode-encode_message_example :
    (m' : Message) × (decode no_inflate no_json no_routes (record { elems = framed; spare = [] })
      ≡ (
        ok (record {
          type = PackageType.data_packet;
          len = length (message_encode no_routes request_300) % 16_777_216;
          body = message m';
        }),
        no_routes,
      ))
    × (m'.type ≡ request_300.type)
    × (m'.data_bytes ≡ request_300.data_bytes)
    × (m'.id ≡ (if msg_has_id request_300.type then request_300.id else 0))
    × (m'.route ≡ (if msg_has_route request_300.type then request_300.route else []))
    × (m'.route_compressed ≡ (
        if msg_has_route request_300.type
        then is_some (lookup request_300.route no_routes.routes)
        else false))
    × (m'.error ≡ false)
decode-encode_message_example =
    decode-encode_message no_inflate no_json no_routes request_300 framed [] no_routes-IsInverse
      request_300-IsSendable encode-framed
