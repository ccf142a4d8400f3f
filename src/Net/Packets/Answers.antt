-- ===== src/Net/Packets/Answers.antt =====
-- The answers to a client's packets.
use recreation_test.Base.{
  ℕ, ◌%◌, ◌≤◌, ◌≡◌, refl, ap, ◌∙◌, false, List, [], ◌∷◌, ◌++◌, length, Option, none, some, Str,
  bytes, ◌==◌, if◌then◌else◌, Outcome, ok, lookup, nat_eq, string_eq, arith,
}
use recreation_test.Base.Text.{split}
use recreation_test.Game.Config.{ConnectorConfig, get_connector_by_server_type}
use recreation_test.Protocol.PackageType
use recreation_test.Protocol.MessageType
use recreation_test.Protocol.Tools.{int_to_bytes, bytes_to_int}
use recreation_test.Protocol.Types.{Packet, Message, message, Dictionary, Slice, exactly, empty}
use recreation_test.Protocol.Dictionary.Inverse.{IsInverse}
use recreation_test.Protocol.Message.{message_encode, msg_has_id, msg_has_route}
use recreation_test.Protocol.Message.RoundTrip.{IsSendable, received}
use recreation_test.Protocol.Packet.{encode, decode, message_body}
use recreation_test.Protocol.Packet.RoundTrip.{decode-encode, decode-framed}
use recreation_test.Protocol.Packet.Faults.{decode_bare_header}
use recreation_test.Net.Selection.{LoadBalanceState}
use recreation_test.Net.Session.{Session}
use recreation_test.Net.Clients.{WsConnection, find_client, route_event}
use recreation_test.Net.Handlers.{
  HandlerError, Action, sent, message_handler, reply_to, encode_reply,
}
use recreation_test.Net.Handlers.Replies.{message_handler_replies}
use recreation_test.Net.Packets.{
  Environment, Connector, EventHandler, heartbeat_handler, data_handler, setup_event_handlers,
  keep_client, on_message, handle_event, perform, conclude, run_handler, route_packet, after_decode,
  decode_client_pack,
}

-- A data packet that is a bare header stops the connector, whatever its length field says and whatever
-- its connection is.
pub decode_client_pack_fatal {ℓ} :
    {V : Type ℓ} (env : Environment V) (c : Connector V) (cid : Str) (b0 b1 b2 : ℕ) (spare : List ℕ)
    → decode_client_pack env c cid
        (record { elems = PackageType.data_packet ∷ b0 ∷ b1 ∷ b2 ∷ []; spare = spare })
      ≡ none
unfolding decode_client_pack after_decode
decode_client_pack_fatal env c cid b0 b1 b2 spare =
    ap (after_decode env c cid)
      (decode_bare_header env.inflate env.unmarshal c.dictionary b0 b1 b2 spare)

module _ {ℓ} {V : Type ℓ} (env : Environment V) (c : Connector V) (cid : Str) where
  -- A packet that is decoded, for a connection and a type that are known.
  routed_lem :
      (body : Slice) (packet : Packet) (d : Dictionary) (conn : WsConnection V) (h : EventHandler)
      → decode env.inflate env.unmarshal c.dictionary body ≡ (ok packet, d)
      → find_client c.manager cid ≡ some conn
      → lookup packet.type setup_event_handlers ≡ some h
      → decode_client_pack env c cid body
        ≡ conclude cid conn (handle_event env (record c { dictionary = d }) cid packet h conn)
  unfolding decode_client_pack after_decode route_packet route_event run_handler
  routed_lem body packet d conn h e here known =
      ap (after_decode env c cid) e
      ∙ rw (here, route_packet, route_event) (rw (known, route_packet) refl)

concluded_lem {ℓ} :
    {V : Type ℓ} (env : Environment V) (c : Connector V) (cid : Str) (conn : WsConnection V)
    (m : Message) (len : ℕ) (answer : List ℕ) (session : Session V)
    → message_handler env.connector_handlers env.intn env.sends env.context env.conf c.dictionary
        PackageType.data_packet m conn.session c.lb_state
      ≡ (ok (sent answer), session, c.lb_state)
    → conn.write_chan_closed ≡ false
    → conclude cid conn (
        handle_event env c cid
          (record { type = PackageType.data_packet; len = len; body = message m })
          data_handler
          conn)
      ≡ some (record c {
        manager = keep_client c.manager cid conn session;
        written = c.written ++ ((cid, answer) ∷ []);
      })
unfolding handle_event on_message message_body conclude perform
concluded_lem {V} env c cid conn m len answer session handled channel_open =
    ap
      (λ (r : Outcome HandlerError Action × Session V × LoadBalanceState).
        conclude cid conn
          (r.0, record c { manager = keep_client c.manager cid conn r.1; lb_state = r.2 }))
      handled
    ∙ rw channel_open refl

-- A request arrives with its id and its route.
received_request :
    (d : Dictionary) (m : Message)
    → m.type ≡ MessageType.request
    → ((received d m).id ≡ m.id) × ((received d m).route ≡ m.route)
unfolding msg_has_id msg_has_route
received_request d m e = (ground arith, ground arith)

answer_id :
    (d : Dictionary) (m : Message) (marshal : List ℕ)
    → m.type ≡ MessageType.request
    → (received d (reply_to (received d m) marshal)).id ≡ m.id
unfolding msg_has_id
answer_id d m marshal e = (received_request d m e).0

reply_to-IsSendable :
    (d : Dictionary) (m : Message) (marshal : List ℕ)
    → m.type ≡ MessageType.request
    → IsSendable d m
    → IsSendable d (reply_to (received d m) marshal)
reply_to-IsSendable d m marshal e s = record {
  known_type = omega arith;
  id_fits = rw (received_request d m e).0 s.id_fits;
  route_fits = rw (received_request d m e).1 s.route_fits;
}

-- A request of a client for this connector, whose handler succeeds, is answered exactly once, on the
-- connection of the client, if the manager knows it and its write channel is open: `SendMessage` is given a
-- packet that the client decodes to a response with the id of its request and the bytes of the handler. The
-- session of the connection is the one behind the handler, and nothing else changes. The request and the
-- response fit the format, and both sides have the dictionary of the routes.
pub request_answered {ℓ} :
    {V : Type ℓ} (env : Environment V) (c : Connector V) (cid : Str) (conn : WsConnection V)
    (m : Message) (packet spare marshal : List ℕ) (r1 r2 r3 : Str) (connector : ConnectorConfig)
    (handler : Session V → List ℕ → Option (List ℕ) × Session V)
    → find_client c.manager cid ≡ some conn
    → conn.write_chan_closed ≡ false
    → m.type ≡ MessageType.request
    → IsInverse c.dictionary
    → IsSendable c.dictionary m
    → encode PackageType.data_packet (message_encode c.dictionary m) ≡ ok packet
    → split b'.' m.route ≡ r1 ∷ r2 ∷ r3 ∷ []
    → get_connector_by_server_type env.conf r1 ≡ some connector
    → lookup (r2 ++ (bytes "." ++ r3)) env.connector_handlers ≡ some handler
    → (handler conn.session m.data_bytes).0 ≡ some marshal
    → length (message_encode c.dictionary (reply_to (received c.dictionary m) marshal)) ≤ 16_777_216
    → (answer : List ℕ) × (response : Message) × (len : ℕ) × (decode_client_pack env c cid
          (record { elems = packet; spare = spare })
        ≡ some (record c {
          manager = keep_client c.manager cid conn (handler conn.session m.data_bytes).1;
          written = c.written ++ ((cid, answer) ∷ []);
        }))
      × (decode env.inflate env.unmarshal c.dictionary (exactly answer) ≡ (
        ok (record { type = PackageType.data_packet; len = len; body = message response }),
        c.dictionary,
      ))
      × (response.type ≡ MessageType.response)
      × (response.id ≡ m.id)
      × (response.data_bytes ≡ marshal)
unfolding handle_event on_message message_body
request_answered env c cid conn m packet spare marshal r1 r2 r3 connector handler here channel_open
      request v fits framed routed ours known done small =
    let d = c.dictionary in
    let m' = received d m in
    let arrived = decode-framed env.inflate env.unmarshal d m packet spare v fits framed in
    let (answer, handled, decoded) =
      message_handler_replies env.connector_handlers env.intn env.sends env.context env.conf d m'
        conn.session c.lb_state r1 r2 r3 connector handler marshal env.inflate env.unmarshal
        (ap (split b'.') (received_request d m request).1 ∙ routed) ours known done v
        (reply_to-IsSendable d m marshal request fits) small in
    (
      answer,
      received d (reply_to m' marshal),
      length (message_encode d (reply_to m' marshal)) % 16_777_216,
      routed_lem env c cid (record { elems = packet; spare = spare }) _ d conn data_handler arrived
            here (unfold lookup setup_event_handlers in refl)
          ∙ concluded_lem env c cid conn m' (length (message_encode d m) % 16_777_216) answer _
              handled channel_open,
      decoded,
      refl,
      answer_id d m marshal request,
      refl,
    )

-- A heartbeat of a connection whose write channel is open is answered, on that connection, with a packet of the same type; whatever
-- its length field and its body are, nothing else changes. The JSON of the answer fits a packet.
pub heartbeat_answered {ℓ} :
    {V : Type ℓ} (env : Environment V) (c : Connector V) (cid : Str) (conn : WsConnection V)
    (b0 b1 b2 : ℕ) (rest spare : List ℕ)
    → find_client c.manager cid ≡ some conn
    → conn.write_chan_closed ≡ false
    → length env.null_text ≤ 16_777_216
    → (answer : List ℕ) × (len : ℕ) × (decode_client_pack env c cid
          (record { elems = PackageType.heartbeat ∷ b0 ∷ b1 ∷ b2 ∷ rest; spare = spare })
        ≡ some (record c { written = c.written ++ ((cid, answer) ∷ []) }))
      × (decode env.inflate env.unmarshal c.dictionary (exactly answer)
          ≡ (ok (record { type = PackageType.heartbeat; len = len; body = empty }), c.dictionary))
unfolding handle_event encode_reply conclude perform
heartbeat_answered env c cid conn b0 b1 b2 rest spare here channel_open small =
    let text = env.null_text in
    let answer = PackageType.heartbeat ∷ (int_to_bytes (length text) ++ text) in
    let framed : encode PackageType.heartbeat text ≡ ok answer = unfold encode in ground arith in
    (
      answer,
      if length text == 16_777_216 then 0 else length text,
      routed_lem env c cid
            (record { elems = PackageType.heartbeat ∷ b0 ∷ b1 ∷ b2 ∷ rest; spare = spare })
            (record {
              type = PackageType.heartbeat;
              len = bytes_to_int (b0 ∷ b1 ∷ b2 ∷ []);
              body = empty;
            })
            c.dictionary conn heartbeat_handler (unfold decode in ground arith) here
            (unfold lookup setup_event_handlers in refl)
          ∙ rw (framed, encode_reply) (rw channel_open refl),
      decode-encode env.inflate env.unmarshal c.dictionary PackageType.heartbeat text answer []
          (λ e. absurd (omega arith)) (λ e. absurd (omega arith)) framed,
    )
