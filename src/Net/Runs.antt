-- ===== src/Net/Runs.antt =====
-- Sessions, connections and messages at concrete inputs.
use native.Mathlib.Decide.{dec_lt}
use recreation_test.Base.{
  ℕ, ◌+◌, ◌≤◌, ◌<◌, ◌≡◌, ◌≢◌, refl, Bool, true, false, if◌then◌else◌, List, [], ◌∷◌, length, Option,
  none, some, Str, str_eq, bytes, lookup, string_eq, nat_eq, ok, arith,
}
use recreation_test.Base.Text.{split}
use recreation_test.Game.Config.{
  Config, ConnectorConfig, ServersConfig, get_connector_by_server_type,
}
use recreation_test.Limit.{RateLimiter, unit, refilled, allow}
use recreation_test.Protocol.PackageType
use recreation_test.Protocol.MessageType
use recreation_test.Protocol.Types.{Message, Dictionary, HandshakeBody}
use recreation_test.Protocol.Dictionary.Inverse.{IsInverse}
use recreation_test.Protocol.MsgId.{encode_msg_id}
use recreation_test.Protocol.Message.{
  message_encode, encode_msg_flag, encode_msg_route, msg_has_id, msg_has_route,
}
use recreation_test.Protocol.Message.RoundTrip.{IsSendable}
use recreation_test.Net.Strategy.{random}
use recreation_test.Net.Ring.Members.{IsServer}
use recreation_test.Net.Session.{free, Session}
use recreation_test.Net.Clients.{
  WsConnection, Manager, SessionData, new_manager, find_client, add_client, remove_client,
  close_connection, set_session_data, copies,
}
use recreation_test.Net.Clients.Maps.{AreDistinct, total}
use recreation_test.Net.Clients.Invariant.{
  IsWellFormed, welcomed, remove_client-returns, add_client_cases,
}
use recreation_test.Net.Clients.Sharing.{
  IsShared, Reaches, started, joined, told, Reaches-IsWellFormed, find_client-new,
}
use recreation_test.Net.Clients.Overlap.{overlapped, sharing_cases}
use recreation_test.Net.Handlers.{forwarded, reply_to, message_handler}
use recreation_test.Net.Handlers.Replies.{message_handler_there}
use recreation_test.Net.Selection.{LoadBalanceState}
use recreation_test.Net.Selection.Destination.{IsWellFormed as IsBalanced}
use recreation_test.Net.Serve.{too_many_requests, service_unavailable, run, serve_ws}
use recreation_test.Net.Serve.Capacity.{serve_ws_cases}

abbrev pub session_7 : Session ℕ
session_7 = record {
  mutex = free;
  cid = bytes "7";
  uid = bytes "u";
  data_map = (bytes "k", 1) ∷ [];
  all = [];
}

abbrev pub client_7 : WsConnection ℕ
client_7 = record { session = session_7; closed = false; write_chan_closed = false }

abbrev pub manager_2 : Manager ℕ
manager_2 = new_manager 2

pub unknown_7 : find_client manager_2 (bytes "7") ≡ none
unknown_7 = find_client-new 2 (bytes "7")

abbrev pub manager_7 : Manager ℕ
manager_7 = (add_client manager_2 client_7).1

pub manager_7-Reaches : Reaches manager_7
manager_7-Reaches = joined manager_2 client_7 (started 2) unknown_7 refl

abbrev news : Option (SessionData ℕ)
news = some (record { single_data = none; all_data = (bytes "round", 4) ∷ [] })

manager_told-Reaches : Reaches (set_session_data manager_7 (bytes "7") (bytes "u") news)
manager_told-Reaches = told manager_7 (bytes "7") (bytes "u") news manager_7-Reaches

remove_client-returns_example :
    (m' : Manager ℕ) × (remove_client manager_7 (bytes "7") ≡ some m')
    × IsWellFormed m'
    × (m'.shared ≡ manager_7.shared)
    × ((j : Str)
        → find_client m' j ≡ (if str_eq (bytes "7") j then none else find_client manager_7 j))
remove_client-returns_example =
    remove_client-returns manager_7 (bytes "7") (Reaches-IsWellFormed manager_7 manager_7-Reaches)

add_client_cases_example :
    (total manager_2.client_buckets ≡ manager_2.max_connections
      → add_client manager_2 client_7 ≡ (close_connection client_7, manager_2))
    × (total manager_2.client_buckets ≢ manager_2.max_connections
        → ((add_client manager_2 client_7).0 ≡ welcomed manager_2 client_7)
          × ((j : Str)
              → find_client (add_client manager_2 client_7).1 j ≡ (
                  if str_eq (bytes "7") j
                  then some (welcomed manager_2 client_7)
                  else find_client manager_2 j)))
add_client_cases_example =
    add_client_cases manager_2 client_7 (Reaches-IsWellFormed manager_2 (started 2))

Reaches-IsWellFormed_example :
    IsWellFormed (set_session_data manager_7 (bytes "7") (bytes "u") news)
Reaches-IsWellFormed_example =
    Reaches-IsWellFormed (set_session_data manager_7 (bytes "7") (bytes "u") news)
      manager_told-Reaches

pub known_7 : find_client manager_7 (bytes "7") ≡ some (welcomed manager_2 client_7)
known_7 =
    ((add_client_cases manager_2 client_7 (Reaches-IsWellFormed manager_2 (started 2))).1
        (λ e. absurd (unfold new_manager copies in omega (arith, e)))).1
      (bytes "7")

abbrev round_4 : List (Str × ℕ)
round_4 = (bytes "round", 4) ∷ []

abbrev round_5 : List (Str × ℕ)
round_5 = (bytes "round", 5) ∷ []

sharing_cases_example :
    IsShared (set_session_data manager_7 (bytes "7") (bytes "u") news)
    × ((first second : List (Str × ℕ)) (cid k : Str) (v w : ℕ) (c : WsConnection ℕ)
        → AreDistinct first
        → AreDistinct second
        → lookup k first ≡ some v
        → lookup k second ≡ some w
        → v ≢ w
        → find_client (set_session_data manager_7 (bytes "7") (bytes "u") news) cid ≡ some c
        → c.closed ≡ false
        → ¬ IsShared
            (overlapped (set_session_data manager_7 (bytes "7") (bytes "u") news) first second))
sharing_cases_example =
    sharing_cases (set_session_data manager_7 (bytes "7") (bytes "u") news) manager_told-Reaches

-- The overlap of two calls for the manager with one connection.
overlap_run : ¬ IsShared (overlapped manager_7 round_4 round_5)
overlap_run =
    (sharing_cases manager_7 manager_7-Reaches).1 round_4 round_5 (bytes "7") (bytes "round") 4 5
      (welcomed manager_2 client_7) (unfold lookup in (refl, tt)) (unfold lookup in (refl, tt))
      (unfold lookup in refl) (unfold lookup in refl) (λ e. absurd (omega (arith, e))) known_7 refl

abbrev ten : RateLimiter
ten = record { rate = 10; capacity = 20_000_000_000; tokens = 20_000_000_000; last_refill = 5 }

serve_ws_cases_example :
    (refilled ten 7 < unit
      → serve_ws ten 7 manager_2 (some client_7) ≡ (too_many_requests, (allow ten 7).1, manager_2))
    × (unit ≤ refilled ten 7
        → total manager_2.client_buckets ≡ manager_2.max_connections
        → serve_ws ten 7 manager_2 (some client_7)
          ≡ (service_unavailable, (allow ten 7).1, manager_2))
    × (unit ≤ refilled ten 7
        → total manager_2.client_buckets ≢ manager_2.max_connections
        → serve_ws ten 7 manager_2 (some client_7)
          ≡ (run (welcomed manager_2 client_7), (allow ten 7).1, (add_client manager_2 client_7).1))
serve_ws_cases_example =
    serve_ws_cases ten 7 manager_2 client_7 (Reaches-IsWellFormed manager_2 (started 2))
      (unfold new_manager in omega arith)

abbrev pub no_routes : Dictionary
no_routes = record { routes = []; codes = [] }

pub no_routes-IsInverse : IsInverse no_routes
unfolding lookup
no_routes-IsInverse = record {
  there = λ r c e. cc;
  back = λ r c e. cc;
  narrow = λ r c e. absurd (cc);
}

abbrev pub request_300 : Message
request_300 = record {
  type = MessageType.request;
  id = 300;
  route = bytes "a.b.c";
  data_bytes = 1 ∷ 2 ∷ [];
  route_compressed = false;
  error = false;
}

abbrev pub gate : ConnectorConfig
gate = record {
  id = bytes "gate-1";
  host = [];
  client_port = 1;
  frontend = true;
  server_type = bytes "a";
}

abbrev hall : ServersConfig
hall = record {
  id = bytes "hall-1";
  server_type = bytes "a";
  handle_time_out = 1;
  rpc_time_out = 1;
  max_run_routine_num = 1;
}

abbrev pub local_conf : Config
local_conf = record {
  game_config = [];
  servers_conf = record { nats_url = []; connector = gate ∷ []; servers = []; type_server = [] };
}

abbrev remote_conf : Config
remote_conf = record {
  game_config = [];
  servers_conf = record {
    nats_url = [];
    connector = [];
    servers = hall ∷ [];
    type_server = (bytes "a", hall ∷ []) ∷ [];
  };
}

abbrev pub balance : LoadBalanceState
balance = record { strategy = random; round_robin_idx = []; hash_ring = []; server_loads = [] }

pub balance-IsBalanced : IsBalanced remote_conf balance
unfolding lookup
balance-IsBalanced = record { turn = λ t servers e h. h; ring = λ t servers r e f. absurd (cc) }

-- The handler answers with the data it gets, and counts.
abbrev echo : ℕ → List ℕ → Option (List ℕ) × ℕ
echo n text = (some text, n + 1)

abbrev echoes : List (Str × (ℕ → List ℕ → Option (List ℕ) × ℕ))
echoes = (bytes "b.c", echo) ∷ []

abbrev echoes_of_others : List (Str × (ℕ → List ℕ → Option (List ℕ) × ℕ))
echoes_of_others = (bytes "b.d", echo) ∷ []

abbrev pub no_inflate : List ℕ → Option (List ℕ)
no_inflate text = none

abbrev pub no_json : List ℕ → Option HandshakeBody
no_json text = none

pub routed : split b'.' (bytes "a.b.c") ≡ bytes "a" ∷ bytes "b" ∷ bytes "c" ∷ []
unfolding split
routed = refl

pub gate_found : get_connector_by_server_type local_conf (bytes "a") ≡ some gate
unfolding get_connector_by_server_type
gate_found = refl

no_gate : get_connector_by_server_type remote_conf (bytes "a") ≡ none
unfolding get_connector_by_server_type
no_gate = refl

hall_found : lookup (bytes "a") remote_conf.servers_conf.type_server ≡ some (hall ∷ [])
unfolding lookup
hall_found = refl

abbrev pub first : ℕ → ℕ
first n = 0

abbrev pub always : Str → Bool
always dst = true

unknown_method : lookup (bytes "b.c") echoes_of_others ≡ none
unfolding lookup
unknown_method = refl

known_method : lookup (bytes "b.c") echoes ≡ some echo
unfolding lookup
known_method = refl

abbrev pub response_300 : Message
response_300 = reply_to request_300 (1 ∷ 2 ∷ [])

pub response_300-IsSendable : IsSendable no_routes response_300
response_300-IsSendable = omega arith

response_300-encoded : message_encode no_routes response_300 ≡ 4 ∷ 172 ∷ 2 ∷ 1 ∷ 2 ∷ []
unfolding message_encode encode_msg_flag encode_msg_id encode_msg_route msg_has_id msg_has_route
    lookup dec_lt
response_300-encoded = refl

pub response_300-length : length (message_encode no_routes response_300) ≤ 16_777_216
response_300-length = rw response_300-encoded (omega arith)

message_handler_there_example :
    (dst : Str) × IsServer (hall ∷ []) dst
    × ((message_handler echoes first always none remote_conf no_routes PackageType.data_packet
          request_300 4 balance).0
        ≡ ok (forwarded dst (bytes "b.c") request_300))
    × ((message_handler echoes first always none remote_conf no_routes PackageType.data_packet
          request_300 4 balance).1
        ≡ 4)
    × IsBalanced remote_conf
        (message_handler echoes first always none remote_conf no_routes PackageType.data_packet
          request_300 4 balance).2
message_handler_there_example =
    message_handler_there echoes first always none remote_conf no_routes PackageType.data_packet
      request_300 4 balance (bytes "a") (bytes "b") (bytes "c") (hall ∷ []) routed no_gate
      (λ n h. h) balance-IsBalanced hall_found (omega arith) (λ dst. refl)
