-- ===== src/Net/Handlers/Replies.antt =====
-- What a message leads to.
use mathlib.Core.Path.{subst}
use recreation_test.Base.{
  ℕ, ◌%◌, ◌≤◌, ◌<◌, ◌≡◌, refl, ap, ◌∙◌, Bool, true, List, [], ◌∷◌, ◌++◌, length, Option, none, some,
  Str, bytes, lookup, string_eq, Outcome, ok, err, panic, arith,
}
use recreation_test.Base.Text.{split, IsFree, split-free, split-append}
use recreation_test.Game.Config.{
  Config, ConnectorConfig, ServersConfig, get_connector_by_server_type,
}
use recreation_test.Protocol.PackageType
use recreation_test.Protocol.Tools.{int_to_bytes}
use recreation_test.Protocol.Types.{Message, Dictionary, HandshakeBody, message}
use recreation_test.Protocol.Dictionary.Inverse.{IsInverse}
use recreation_test.Protocol.Message.{message_encode}
use recreation_test.Protocol.Message.RoundTrip.{IsSendable, received}
use recreation_test.Protocol.Packet.{encode, decode}
use recreation_test.Protocol.Packet.RoundTrip.{decode-framed}
use recreation_test.Net.Context.{Context}
use recreation_test.Net.Ring.Members.{IsServer}
use recreation_test.Net.Selection.{LoadBalanceState, SelectError, select_dst}
use recreation_test.Net.Selection.Picks.{IsPick}
use recreation_test.Net.Selection.Destination.{IsWellFormed, Answers, select_dst-Answers}
use recreation_test.Net.Handlers.{
  idle, sent, forwarded, encode_reply, reply_to, reply, handle_here, forward, handle_parts,
  message_handler,
}

-- A route in three parts.
abbrev pub route_of : Str → Str → Str → Str
route_of a b c = a ++ (bytes "." ++ (b ++ (bytes "." ++ c)))

split-route :
    (a b c : Str)
    → IsFree b'.' a
    → IsFree b'.' b
    → IsFree b'.' c
    → split b'.' (route_of a b c) ≡ a ∷ b ∷ c ∷ []
split-route a b c ha hb hc =
    split-append b'.' a (b ++ (bytes "." ++ c)) ha
    ∙ ap (◌∷◌ a) (split-append b'.' b c hb ∙ ap (◌∷◌ b) (split-free b'.' c hc))

module _ {ℓ} {S : Type ℓ} (handlers : List (Str × (S → List ℕ → Option (List ℕ) × S)))
    (intn : ℕ → ℕ) (sends : Str → Bool) (ctx : Option Context) (conf : Config) (d : Dictionary)
    (m : Message) (session : S) (lb : LoadBalanceState) (a b c : Str)
    (routed : split b'.' m.route ≡ a ∷ b ∷ c ∷ []) where
  here_lem :
      (package_type : ℕ) (connector : ConnectorConfig)
      → get_connector_by_server_type conf a ≡ some connector
      → message_handler handlers intn sends ctx conf d package_type m session lb ≡ (
        (handle_here handlers d package_type m session (b ++ (bytes "." ++ c))).0,
        (handle_here handlers d package_type m session (b ++ (bytes "." ++ c))).1,
        lb,
      )
  unfolding message_handler handle_parts
  here_lem package_type connector e = rw routed (rw (e, handle_parts) refl)

  there_lem :
      (package_type : ℕ)
      → get_connector_by_server_type conf a ≡ none
      → message_handler handlers intn sends ctx conf d package_type m session lb ≡ (
        forward handlers intn sends ctx conf m
            (b ++ (bytes "." ++ c))
            (select_dst intn ctx conf lb a).0,
        session,
        (select_dst intn ctx conf lb a).1,
      )
  unfolding message_handler handle_parts
  there_lem package_type e = rw routed (rw (e, handle_parts) refl)

pub encode_data :
    (buf : List ℕ)
    → length buf ≤ 16_777_216
    → encode PackageType.data_packet buf
      ≡ ok (PackageType.data_packet ∷ (int_to_bytes (length buf) ++ buf))
unfolding encode
encode_data buf small = ground arith

-- A message for this connector whose method has no handler is passed over: no error, no reply, nothing
-- is forwarded, and nothing changes.
pub message_handler_idle {ℓ} :
    {S : Type ℓ} (handlers : List (Str × (S → List ℕ → Option (List ℕ) × S))) (intn : ℕ → ℕ)
    (sends : Str → Bool) (ctx : Option Context) (conf : Config) (d : Dictionary) (m : Message)
    (session : S) (lb : LoadBalanceState) (a b c : Str) (connector : ConnectorConfig)
    → split b'.' m.route ≡ a ∷ b ∷ c ∷ []
    → get_connector_by_server_type conf a ≡ some connector
    → lookup (b ++ (bytes "." ++ c)) handlers ≡ none
    → message_handler handlers intn sends ctx conf d PackageType.data_packet m session lb
      ≡ (ok idle, session, lb)
unfolding handle_here
message_handler_idle handlers intn sends ctx conf d m session lb a b c connector routed e unknown =
    here_lem handlers intn sends ctx conf d m session lb a b c routed PackageType.data_packet
      connector e
    ∙ rw (unknown, handle_here) refl

-- A message for this connector whose handler succeeds is answered by a packet that the client decodes to
-- a response with the id of the message and the result of the handler, if the reply fits the format; the
-- session is the one behind the handler, and the balancing state stays.
pub message_handler_replies {ℓ} :
    {S : Type ℓ} (handlers : List (Str × (S → List ℕ → Option (List ℕ) × S))) (intn : ℕ → ℕ)
    (sends : Str → Bool) (ctx : Option Context) (conf : Config) (d : Dictionary) (m : Message)
    (session : S) (lb : LoadBalanceState) (a b c : Str) (connector : ConnectorConfig)
    (handler : S → List ℕ → Option (List ℕ) × S) (marshal : List ℕ)
    (inflate : List ℕ → Option (List ℕ)) (unmarshal : List ℕ → Option HandshakeBody)
    → split b'.' m.route ≡ a ∷ b ∷ c ∷ []
    → get_connector_by_server_type conf a ≡ some connector
    → lookup (b ++ (bytes "." ++ c)) handlers ≡ some handler
    → (handler session m.data_bytes).0 ≡ some marshal
    → IsInverse d
    → IsSendable d (reply_to m marshal)
    → length (message_encode d (reply_to m marshal)) ≤ 16_777_216
    → (packet : List ℕ) × (message_handler handlers intn sends ctx conf d PackageType.data_packet m
          session lb
        ≡ (ok (sent packet), (handler session m.data_bytes).1, lb))
      × (decode inflate unmarshal d (record { elems = packet; spare = [] }) ≡ (
        ok (record {
          type = PackageType.data_packet;
          len = length (message_encode d (reply_to m marshal)) % 16_777_216;
          body = message (received d (reply_to m marshal));
        }),
        d,
      ))
unfolding handle_here reply encode_reply
message_handler_replies handlers intn sends ctx conf d m session lb a b c connector handler marshal
      inflate unmarshal routed e known done v s small =
    let buf = message_encode d (reply_to m marshal) in
    let packet = PackageType.data_packet ∷ (int_to_bytes (length buf) ++ buf) in
    let framed = encode_data buf small in
    (
      packet,
      here_lem handlers intn sends ctx conf d m session lb a b c routed PackageType.data_packet
            connector e
          ∙ rw (known, handle_here) (rw (done, reply) (rw (framed, encode_reply) refl)),
      decode-framed inflate unmarshal d (reply_to m marshal) packet [] v s framed,
    )

-- A pick of the selection is a server, and is forwarded to.
forward-IsServer {ℓ} :
    {S : Type ℓ} (handlers : List (Str × (S → List ℕ → Option (List ℕ) × S))) (intn : ℕ → ℕ)
    (sends : Str → Bool) (ctx : Option Context) (conf : Config) (m : Message) (method : Str)
    (servers : List ServersConfig) (pick : Outcome SelectError Str)
    → ((dst : Str) → sends dst ≡ true)
    → IsPick servers pick
    → (dst : Str) × IsServer servers dst
      × (forward handlers intn sends ctx conf m method pick ≡ ok (forwarded dst method m))
unfolding forward
forward-IsServer handlers intn sends ctx conf m method servers (ok dst) up s =
    (dst, s, rw (up dst) refl)
forward-IsServer handlers intn sends ctx conf m method servers (err e) up s = absurd s
forward-IsServer handlers intn sends ctx conf m method servers panic up s = absurd s

Answers-IsPick :
    (servers : List ServersConfig) (r : Outcome SelectError Str)
    → 0 < length servers
    → Answers (some servers) r
    → IsPick servers r
Answers-IsPick [] r h a = absurd (omega arith)
Answers-IsPick (x ∷ rest) r h a = a

-- A message for another server type goes to a server of that type, whatever the strategy, if the type has
-- servers and the remote client takes messages; the session stays, and the balancing state stays well
-- formed.
pub message_handler_there {ℓ} :
    {S : Type ℓ} (handlers : List (Str × (S → List ℕ → Option (List ℕ) × S))) (intn : ℕ → ℕ)
    (sends : Str → Bool) (ctx : Option Context) (conf : Config) (d : Dictionary) (package_type : ℕ)
    (m : Message) (session : S) (lb : LoadBalanceState) (a b c : Str) (servers : List ServersConfig)
    → split b'.' m.route ≡ a ∷ b ∷ c ∷ []
    → get_connector_by_server_type conf a ≡ none
    → ((n : ℕ) → 0 < n → intn n < n)
    → IsWellFormed conf lb
    → lookup a conf.servers_conf.type_server ≡ some servers
    → 0 < length servers
    → ((dst : Str) → sends dst ≡ true)
    → (dst : Str) × IsServer servers dst
      × ((message_handler handlers intn sends ctx conf d package_type m session lb).0
          ≡ ok (forwarded dst (b ++ (bytes "." ++ c)) m))
      × ((message_handler handlers intn sends ctx conf d package_type m session lb).1 ≡ session)
      × IsWellFormed conf
          (message_handler handlers intn sends ctx conf d package_type m session lb).2
message_handler_there handlers intn sends ctx conf d package_type m session lb a b c servers routed
      e fair w known some_server up =
    let there = there_lem handlers intn sends ctx conf d m session lb a b c routed package_type e in
    let (answers, w') = select_dst-Answers intn ctx conf lb a fair w in
    let pick = Answers-IsPick servers (select_dst intn ctx conf lb a).0 some_server (
      subst (λ (o : Option (List ServersConfig)). Answers o (select_dst intn ctx conf lb a).0) known
        answers) in
    let (dst, s, done) =
      forward-IsServer handlers intn sends ctx conf m (b ++ (bytes "." ++ c)) servers
        (select_dst intn ctx conf lb a).0 up pick in
    rw there (dst, s, done, refl, w')
