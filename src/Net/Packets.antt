-- ===== src/Net/Packets.antt =====
-- framework/net/ws_manager.go: `decodeClientPack`, `setupEventHandlers` and the event handlers: what a
-- packet of a client leads to. JSON, zlib, the random numbers, the handlers of the application and the
-- remote client are the parameters in `Environment`; `null_text` is the JSON of a nil slice. A packet is
-- one step, and `none` says that the program has stopped, as it does when `SendMessage` is called on a closed
-- `WriteChan`. `written` and `remote` list what `SendMessage` and the remote client were given; a call on a
-- full channel waits for room, and is then given its packet.
pub mod Keeps
pub mod Answers
use mathlib.Core.Option
use recreation_test.Base.{
  if◌then◌else◌, ℕ, suc, ◌+◌, Bool, List, [], ◌∷◌, ◌++◌, Option, none, some, Str, Outcome, ok, err,
  panic, lookup, insert, nat_eq, string_eq,
}
use recreation_test.Base.Int.{int64_suc}
use recreation_test.Game.Config.{Config}
use recreation_test.Protocol.PackageType
use recreation_test.Protocol.Types.{
  Packet, Message, Sys, HandshakeBody, Dictionary, Slice, DecodeError,
}
use recreation_test.Protocol.Packet.{decode, message_body}
use recreation_test.Net.Context.{Context}
use recreation_test.Net.Selection.{LoadBalanceState}
use recreation_test.Net.Session.{Session}
use recreation_test.Net.Clients.{
  Manager, WsConnection, bucket_index, update_at, find_client, route_event,
}
use recreation_test.Net.Handlers
use recreation_test.Net.Handlers.{HandlerError, Action, idle, sent, forwarded, encode_reply}

pub record HandshakeResponse : Type 0 where
  pub code : ℕ
  pub sys : Sys

module _ {ℓ} where
  pub record Environment (V : Type ℓ) : Type ℓ where
    pub inflate : List ℕ → Option (List ℕ)
    pub unmarshal : List ℕ → Option HandshakeBody
    pub marshal : HandshakeResponse → List ℕ
    pub null_text : List ℕ
    pub connector_handlers : List (Str × (Session V → List ℕ → Option (List ℕ) × Session V))
    pub intn : ℕ → ℕ
    pub sends : Str → Bool
    pub context : Option Context
    pub conf : Config

  pub record Connector (V : Type ℓ) : Type ℓ where
    pub manager : Manager V
    pub dictionary : Dictionary
    pub lb_state : LoadBalanceState
    pub message_errors : ℕ
    pub written : List (Str × List ℕ)
    pub remote : List (Str × Str × Message)

pub data EventHandler : Type 0 where
  handshake_handler handshake_ack_handler heartbeat_handler data_handler kick_handler : EventHandler

-- `setupEventHandlers`.
unfoldable pub setup_event_handlers : List (ℕ × EventHandler)
setup_event_handlers =
    (PackageType.handshake, handshake_handler)
    ∷ (PackageType.handshake_ack, handshake_ack_handler)
    ∷ (PackageType.heartbeat, heartbeat_handler)
    ∷ (PackageType.data_packet, data_handler)
    ∷ (PackageType.kick, kick_handler)
    ∷ []

abbrev pub handshake_response : HandshakeResponse
handshake_response = record {
  code = 200;
  sys = record {
    type = [];
    version = [];
    proto_version = 0;
    heartbeat = 3;
    dict = none;
    serializer = [];
  };
}

module _ {ℓ} {V : Type ℓ} where
  -- A change of the session of a connection in its bucket.
  unfoldable pub keep_client : Manager V → Str → WsConnection V → Session V → Manager V
  keep_client m cid conn session = record m {
    client_buckets =
        update_at (bucket_index cid) (insert cid (record conn { session = session }))
          m.client_buckets;
  }

  unfoldable pub on_message :
      Environment V
      → Connector V
      → Str
      → Packet
      → WsConnection V
      → Option Message
      → Outcome HandlerError Action × Connector V
  on_message env c cid packet conn none = (panic, c)
  on_message env c cid packet conn (some m) =
      let (result, session, lb) =
        Handlers.message_handler env.connector_handlers env.intn env.sends env.context env.conf
          c.dictionary packet.type m conn.session c.lb_state in
      (result, record c { manager = keep_client c.manager cid conn session; lb_state = lb })

  unfoldable pub handle_event :
      Environment V
      → Connector V
      → Str
      → Packet
      → EventHandler
      → WsConnection V
      → Outcome HandlerError Action × Connector V
  handle_event env c cid packet handshake_handler conn =
      (encode_reply packet.type (env.marshal handshake_response), c)
  handle_event env c cid packet handshake_ack_handler conn = (ok idle, c)
  handle_event env c cid packet heartbeat_handler conn = (encode_reply packet.type env.null_text, c)
  handle_event env c cid packet data_handler conn = elim (message_body packet) [
    | ok body ↦ on_message env c cid packet conn body
    | err e ↦ (panic, c)
    | panic ↦ (panic, c)
  ]
  handle_event env c cid packet kick_handler conn = (ok idle, c)

  -- What a handler does in the end: `SendMessage`, or `SendMsg` of the remote client.
  unfoldable pub perform : Str → WsConnection V → Action → Connector V → Option (Connector V)
  perform cid conn idle c = some c
  perform cid conn (sent buf) c =
      let c' = record c { written = c.written ++ ((cid, buf) ∷ []) } in
      if conn.write_chan_closed then none else some c'
  perform cid conn (forwarded dst method m) c =
      some (record c { remote = c.remote ++ ((dst, method, m) ∷ []) })

  abbrev pub count_error : Connector V → Connector V
  count_error c = record c { message_errors = int64_suc c.message_errors }

  unfoldable pub conclude :
      Str → WsConnection V → Outcome HandlerError Action × Connector V → Option (Connector V)
  conclude cid conn (ok action, c) = perform cid conn action c
  conclude cid conn (err e, c) = some (count_error c)
  conclude cid conn (panic, c) = none

  unfoldable pub run_handler :
      Environment V
      → Connector V
      → Str
      → Packet
      → EventHandler
      → WsConnection V
      → Option (Connector V)
  run_handler env c cid packet h conn = conclude cid conn (handle_event env c cid packet h conn)

  unfoldable pub route_packet : Environment V → Connector V → Str → Packet → Option (Connector V)
  route_packet env c cid packet =
      let handler =
        Option.map (run_handler env c cid packet) (lookup packet.type setup_event_handlers) in
      elim (route_event c.manager handler cid) [
        | none ↦ some (count_error c)
        | some result ↦ result
      ]

  -- What follows on the decoding: an error is counted.
  unfoldable pub after_decode :
      Environment V
      → Connector V
      → Str
      → Outcome DecodeError Packet × Dictionary
      → Option (Connector V)
  after_decode env c cid (ok packet, d) = route_packet env (record c { dictionary = d }) cid packet
  after_decode env c cid (err e, d) = some (count_error (record c { dictionary = d }))
  after_decode env c cid (panic, d) = none

  unfoldable pub decode_client_pack :
      Environment V → Connector V → Str → Slice → Option (Connector V)
  decode_client_pack env c cid body =
      after_decode env c cid (decode env.inflate env.unmarshal c.dictionary body)
