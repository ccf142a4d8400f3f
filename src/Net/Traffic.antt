-- ===== src/Net/Traffic.antt =====
-- Packets, messages of other servers, workers and the pool at concrete inputs.
use native.Mathlib.Decide.{dec_lt}
use recreation_test.Base.{
  if◌then◌else◌, Str, Outcome, ap, ℕ, ◌%◌, ◌≤◌, ◌<◌, ◌≡◌, refl, false, List, [], ◌∷◌, ◌++◌, length,
  Option, none, some, bytes, lookup, string_eq, nat_eq, ok, panic, arith, inl, All,
}
use recreation_test.Protocol.PackageType
use recreation_test.Protocol.MessageType
use recreation_test.Protocol.Types.{Message, message, exactly, empty}
use recreation_test.Protocol.Tools.{int_to_bytes}
use recreation_test.Protocol.MsgId.{encode_msg_id}
use recreation_test.Protocol.Message.{
  message_encode, encode_msg_flag, encode_msg_route, msg_has_id, msg_has_route,
}
use recreation_test.Protocol.Message.RoundTrip.{IsSendable, received}
use recreation_test.Protocol.Packet.{decode, encode}
use mathlib.Core.List.{Perm}
use recreation_test.Net.Session.{Session, Wait}
use recreation_test.Net.Clients.{WsConnection, find_client}
use recreation_test.Net.Clients.Invariant.{welcomed}
use recreation_test.Net.Clients.Sharing.{Reaches-IsWellFormed}
use recreation_test.Net.Handlers.{reply_to}
use recreation_test.Net.Runs.{
  known_7, client_7, manager_2, manager_7, manager_7-Reaches, no_routes, no_routes-IsInverse,
  request_300, gate, local_conf, balance, no_inflate, no_json, first, always, response_300-length,
  response_300-IsSendable, routed, gate_found,
}
use recreation_test.Net.Stream
use recreation_test.Net.Stream.{Msg}
use recreation_test.Net.Remote.{
  Remote, handle_remote, handle_push, as_response, RemoteReadChanHandler,
}
use recreation_test.Net.Remote.Batched.{outputs}
use recreation_test.Net.Remote.Answered.{IsAnswer, answer_to, every_message_answered}
use recreation_test.Net.Remote.Responses.{
  is_shut, to_connection, handle_remote_answers, handle_push_fatal,
}
use recreation_test.Net.Batches.{Event, received as delivered, tick, batch_loop, batch_size}
use recreation_test.Net.Batches.Delivery.{join, deliveries, IsBatch, batch_loop_lem}
use recreation_test.Net.Packets.{Environment, Connector, keep_client, decode_client_pack}
use recreation_test.Net.Packets.Keeps.{IsSound, decode_client_pack-IsSound}
use recreation_test.Net.Packets.Answers.{request_answered, heartbeat_answered}

abbrev welcomed_7 : WsConnection ℕ
welcomed_7 = welcomed manager_2 client_7

abbrev answered : Msg ℕ
answered = record {
  cid = bytes "7";
  body = some request_300;
  src = bytes "hall-1";
  dst = bytes "gate-1";
  router = [];
  uid = bytes "u";
  connector_id = [];
  session_data = none;
  session_type = Stream.normal;
  push_user = bytes "u" ∷ [];
}

abbrev remote_7 : Remote ℕ
remote_7 = record { manager = manager_7; push_chan = []; push_capacity = 2048; written = [] }

handle_remote_answers_example :
    (packet : List ℕ) × (handle_remote (λ text. some answered) no_routes remote_7 [] ≡ (
      if is_shut (find_client manager_7 (bytes "7"))
      then panic
      else ok (record remote_7 {
        written = [] ++ to_connection packet (find_client manager_7 (bytes "7"));
      })))
    × (decode (λ z. none) (λ text. none) no_routes (exactly packet) ≡ (
      ok (record {
        type = PackageType.data_packet;
        len = length (message_encode no_routes (as_response request_300)) % 16_777_216;
        body = message (received no_routes (as_response request_300));
      }),
      no_routes,
    ))
handle_remote_answers_example =
    handle_remote_answers (λ text. some answered) no_routes remote_7 [] answered request_300
      no_inflate no_json refl (λ e. absurd (omega (arith, e))) refl (inl refl) (omega arith)
      no_routes-IsInverse response_300-IsSendable response_300-length

abbrev push_7 : Message
push_7 = record {
  type = MessageType.push;
  id = 0;
  route = [];
  data_bytes = [];
  route_compressed = false;
  error = false;
}

abbrev pushed : Msg ℕ
pushed = record answered { body = some push_7 }

push_7-length : length (message_encode no_routes push_7) ≤ 16_777_216
unfolding message_encode encode_msg_flag encode_msg_route msg_has_id msg_has_route lookup
push_7-length = omega arith

handle_push_fatal_example : handle_push no_routes remote_7 pushed ≡ panic
handle_push_fatal_example =
    handle_push_fatal no_routes remote_7 pushed push_7 refl refl (omega arith)
      (rw (Reaches-IsWellFormed manager_7 manager_7-Reaches).width (omega arith)) push_7-length

abbrev events : List (Event ℕ)
events = delivered 5 ∷ tick ∷ delivered 6 ∷ []

batch_loop_lem_example :
    (join (batch_loop events []).0 ++ (batch_loop events []).1 ≡ deliveries events)
    × All IsBatch (batch_loop events []).0
    × (length (batch_loop events []).1 < batch_size)
batch_loop_lem_example = batch_loop_lem events

answered_7-IsAnswer : IsAnswer (λ text. some answered) no_routes manager_7 []
answered_7-IsAnswer = record {
  msg = answered;
  body = request_300;
  decoded = refl;
  not_session = λ e. absurd (omega (arith, e));
  carried = refl;
  answered = inl refl;
  named = omega arith;
  small = response_300-length;
  unshut = ap is_shut known_7;
}

abbrev two_reads : List (Event (List ℕ))
two_reads = delivered [] ∷ delivered [] ∷ []

every_message_answered_example :
    ((r : Outcome Wait (Remote ℕ))
      → RemoteReadChanHandler
          (λ text. some answered)
          no_routes
          (two_reads ++ (tick ∷ []))
          remote_7
          r
      → (more : List (Str × List ℕ)) × (r ≡ ok (record remote_7 { written = [] ++ more }))
        × Perm more (
            outputs (answer_to no_routes manager_7 (λ text. some answered)) (deliveries two_reads)))
    × ((s' : Remote ℕ) × RemoteReadChanHandler
          (λ text. some answered)
          no_routes
          (two_reads ++ (tick ∷ []))
          remote_7
          (ok s'))
unfolding deliveries
every_message_answered_example =
    every_message_answered (λ text. some answered) no_routes two_reads tick remote_7 tt
      (answered_7-IsAnswer, (answered_7-IsAnswer, tt))

-- The handler answers with the data it gets.
abbrev echo : Session ℕ → List ℕ → Option (List ℕ) × Session ℕ
echo session text = (some text, session)

abbrev gateway : Environment ℕ
gateway = record {
  inflate = no_inflate;
  unmarshal = no_json;
  marshal = λ response. [];
  null_text = bytes "null";
  connector_handlers = (bytes "b.c", echo) ∷ [];
  intn = first;
  sends = always;
  context = none;
  conf = local_conf;
}

abbrev connector_7 : Connector ℕ
connector_7 = record {
  manager = manager_7;
  dictionary = no_routes;
  lb_state = balance;
  message_errors = 0;
  written = [];
  remote = [];
}

abbrev beat : List ℕ
beat = PackageType.heartbeat ∷ 0 ∷ 0 ∷ 0 ∷ []

answered_7 :
    (answer : List ℕ) × (len : ℕ) × (decode_client_pack gateway connector_7
        (bytes "7")
        (record { elems = beat; spare = [] })
      ≡ some (record connector_7 { written = [] ++ ((bytes "7", answer) ∷ []) }))
    × (decode no_inflate no_json no_routes (exactly answer)
        ≡ (ok (record { type = PackageType.heartbeat; len = len; body = empty }), no_routes))
answered_7 =
    heartbeat_answered gateway connector_7 (bytes "7") welcomed_7 0 0 0 [] [] known_7 refl
      (omega arith)

connector_7-IsSound : IsSound local_conf connector_7
unfolding lookup
connector_7-IsSound = record {
  clients = Reaches-IsWellFormed manager_7 manager_7-Reaches;
  routes = no_routes-IsInverse;
  balance = record { turn = λ t servers e h. absurd (cc); ring = λ t servers r e f. absurd (cc) };
}

decode_client_pack-IsSound_example :
    IsSound local_conf (record connector_7 { written = [] ++ ((bytes "7", answered_7.0) ∷ []) })
decode_client_pack-IsSound_example =
    decode_client_pack-IsSound gateway connector_7
      (record connector_7 { written = [] ++ ((bytes "7", answered_7.0) ∷ []) }) (bytes "7")
      (record { elems = beat; spare = [] }) (λ n h. h) (λ text body dict e f. absurd (cc))
      connector_7-IsSound answered_7.2

echo_found : lookup (bytes "b.c") gateway.connector_handlers ≡ some echo
unfolding lookup
echo_found = refl

request_300-IsSendable : IsSendable no_routes request_300
request_300-IsSendable = record {
  known_type = omega arith;
  id_fits = omega arith;
  route_fits = λ e. omega arith;
}

abbrev packet_300 : List ℕ
packet_300 =
    PackageType.data_packet ∷ 0 ∷ 0 ∷ 11 ∷ (0 ∷ 172 ∷ 2 ∷ 5 ∷ (bytes "a.b.c" ++ (1 ∷ 2 ∷ [])))

request_300-encoded :
    encode PackageType.data_packet (message_encode no_routes request_300) ≡ ok packet_300
unfolding encode message_encode encode_msg_flag encode_msg_id encode_msg_route msg_has_id
    msg_has_route lookup dec_lt int_to_bytes
request_300-encoded = refl

reply-length :
    length (message_encode no_routes (reply_to (received no_routes request_300) (1 ∷ 2 ∷ [])))
    ≤ 16_777_216
unfolding message_encode encode_msg_flag encode_msg_id encode_msg_route msg_has_id msg_has_route
    lookup dec_lt
reply-length = omega arith

request_answered_example :
    (answer : List ℕ) × (response : Message) × (len : ℕ) × (decode_client_pack gateway connector_7
        (bytes "7")
        (record { elems = packet_300; spare = [] })
      ≡ some (record connector_7 {
        manager = keep_client manager_7 (bytes "7") welcomed_7 welcomed_7.session;
        written = [] ++ ((bytes "7", answer) ∷ []);
      }))
    × (decode no_inflate no_json no_routes (exactly answer) ≡ (
      ok (record { type = PackageType.data_packet; len = len; body = message response }),
      no_routes,
    ))
    × (response.type ≡ MessageType.response)
    × (response.id ≡ 300)
    × (response.data_bytes ≡ 1 ∷ 2 ∷ [])
request_answered_example =
    request_answered gateway connector_7 (bytes "7") welcomed_7 request_300 packet_300 []
      (1 ∷ 2 ∷ []) (bytes "a") (bytes "b") (bytes "c") gate echo known_7 refl refl
      no_routes-IsInverse request_300-IsSendable request_300-encoded routed gate_found echo_found
      refl reply-length
