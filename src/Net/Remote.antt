-- ===== src/Net/Remote.antt =====
-- framework/net/ws_manager.go: what a connector does with the messages of other servers, in
-- `remoteReadChanHandler`, `remotePushChanHandler` and `Response`. The JSON decoder is a parameter. Each
-- message of a batch is handled by a goroutine of its own: they run in any order, each of them as one step,
-- with the locks of the buckets free in between, and a batch follows when all are done. (A goroutine that
-- answers a client changes nothing but the channel of one connection; one that stores session data writes
-- twice, see Net/Clients/Overlap.) `written` is what `SendMessage` was given, with the connection it was
-- called on: the call stops the program if `WriteChan` is closed, and waits for room if it is full.
pub mod Responses
pub mod Batched
pub mod Answered
use recreation_test.Base.{
  ℕ, Bool, true, false, ◌||◌, ◌==◌, ◌≡◌, ltb, if◌then◌else◌, List, [], ◌∷◌, ◌++◌, map, length,
  Option, none, some, Str, Outcome, ok, err, panic, ◌>>=◌,
}
use recreation_test.Protocol.PackageType
use recreation_test.Protocol.MessageType
use recreation_test.Protocol.Types.{Message, Dictionary, EncodeError}
use recreation_test.Protocol.Message.{message_encode}
use recreation_test.Protocol.Packet.{encode}
use recreation_test.Net.Session.{RwMutex, free, Wait}
use recreation_test.Net.Clients.{Manager, WsConnection, find_client, set_session_data}
use recreation_test.Net.Serve.{push_targets}
use recreation_test.Net.Stream.{Msg}
use recreation_test.Net.Batches.{Event, batch_loop}
use recreation_test.Net.Stream

module _ {ℓ} where
  pub record Remote (V : Type ℓ) : Type ℓ where
    pub manager : Manager V
    pub push_chan : List (Msg V)
    pub push_capacity : ℕ
    pub written : List (Str × List ℕ)

abbrev pub as_response : Message → Message
as_response body = record body { type = MessageType.response }

module _ {ℓ} {V : Type ℓ} where
  abbrev pub unlocked :
      List (List (Str × WsConnection V)) → List (RwMutex × List (Str × WsConnection V))
  unlocked buckets = map (λ b. (free, b)) buckets

  -- `SendMessage`.
  unfoldable pub send_to : List ℕ → WsConnection V → Outcome Wait (List (Str × List ℕ))
  send_to res conn = if conn.write_chan_closed then panic else ok ((conn.session.cid, res) ∷ [])

  -- The goroutines that send the packet, each of which may stop the program.
  unfoldable pub send_to_each : List ℕ → List (WsConnection V) → Outcome Wait (List (Str × List ℕ))
  send_to_each res [] = ok []
  send_to_each res (conn ∷ conns) = do
    one ← send_to res conn
    others ← send_to_each res conns
    ok (one ++ others)

  -- The branch of a push.
  unfoldable pub send_to_users : Manager V → List Str → List ℕ → Outcome Wait (List (Str × List ℕ))
  send_to_users m [] res = ok []
  send_to_users m (uid ∷ uids) res = do
    conns ← push_targets (uid ∷ uids) (unlocked m.client_buckets)
    send_to_each res conns

  -- The branch of a single client.
  unfoldable pub send_to_client : Manager V → Str → List ℕ → Outcome Wait (List (Str × List ℕ))
  send_to_client m [] res = ok []
  send_to_client m (c ∷ cid) res = elim (find_client m (c ∷ cid)) [
    | none ↦ ok []
    | some conn ↦ send_to res conn
  ]

  -- `Response` behind the encoding.
  unfoldable pub send_packet :
      Manager V → Msg V → Message → List ℕ → Outcome Wait (List (Str × List ℕ))
  send_packet m msg body res =
      if body.type == MessageType.push
      then send_to_users m msg.push_user res
      else send_to_client m msg.cid res

  -- `Response`: what it writes, where `body` is what `msg.Body` points to.
  unfoldable pub response :
      Dictionary → Manager V → Msg V → Message → Outcome Wait (List (Str × List ℕ))
  response d m msg body = elim (encode PackageType.data_packet (message_encode d body)) [
    | ok res ↦ send_packet m msg body res
    | err e ↦ ok []
    | panic ↦ panic
  ]

  unfoldable pub respond : Dictionary → Remote V → Msg V → Message → Outcome Wait (Remote V)
  respond d s msg body = do
    sent ← response d s.manager msg body
    ok (record s { written = s.written ++ sent })

  -- The `select` that hands a push over, or answers it if the channel is full.
  unfoldable pub hand_over : Dictionary → Remote V → Msg V → Message → Outcome Wait (Remote V)
  hand_over d s msg body =
      let queued = record s { push_chan = s.push_chan ++ (msg ∷ []) } in
      if ltb (length s.push_chan) s.push_capacity then ok queued else respond d s msg body

  -- The first condition on `msg.Body`, and the second one, which sees what the first has written.
  unfoldable pub answer_remote :
      Dictionary → Remote V → Msg V → Message → Outcome Wait (Remote V × Message)
  answer_remote d s msg body =
      let body' = as_response body in
      if (body.type == MessageType.request) || (body.type == MessageType.response)
      then (do s' ← respond d s (record msg { body = some body' }) body'; ok (s', body'))
      else ok (s, body)

  unfoldable pub push_remote : Dictionary → Msg V → Remote V × Message → Outcome Wait (Remote V)
  push_remote d msg (s, body) =
      if body.type == MessageType.push then hand_over d s msg body else ok s

  unfoldable pub handle_body :
      Dictionary → Remote V → Msg V → Option Message → Outcome Wait (Remote V)
  handle_body d s msg none = ok s
  handle_body d s msg (some body) = answer_remote d s msg body >>= push_remote d msg

  -- `setSessionData` of a message.
  unfoldable pub keep_session : Remote V → Msg V → Remote V
  keep_session s msg = record s {
    manager = set_session_data s.manager msg.cid msg.uid msg.session_data;
  }

  unfoldable pub handle_msg : Dictionary → Remote V → Msg V → Outcome Wait (Remote V)
  handle_msg d s msg =
      if msg.session_type == Stream.session
      then ok (keep_session s msg)
      else handle_body d s msg msg.body

  -- A message of `RemoteReadChan`; one that is not JSON is passed over.
  unfoldable pub handle_remote :
      (List ℕ → Option (Msg V)) → Dictionary → Remote V → List ℕ → Outcome Wait (Remote V)
  handle_remote unmarshal d s bytes = elim (unmarshal bytes) [
    | none ↦ ok s
    | some msg ↦ handle_msg d s msg
  ]

  -- A message of `RemotePushChan`, each of which has a body.
  unfoldable pub handle_push : Dictionary → Remote V → Msg V → Outcome Wait (Remote V)
  handle_push d s msg = elim msg.body [
    | none ↦ panic
    | some body ↦ if body.type == MessageType.push then respond d s msg body else ok s
  ]

-- An element of a list, and the others.
pub data Takes {κ} {A : Type κ} : List A → A → List A → Type κ where
  here : (x : A) (xs : List A) → Takes (x ∷ xs) x xs
  there : (y x : A) (xs rest : List A) → Takes xs x rest → Takes (y ∷ xs) x (y ∷ rest)

module _ {ℓ κ} {V : Type ℓ} where
  -- What the goroutines of a batch may lead to: whichever runs next, until all are done or one has stopped
  -- the program.
  pub data RunsBatch {A : Type κ} (h : Remote V → A → Outcome Wait (Remote V))
      : List A → Remote V → Outcome Wait (Remote V) → Type (ℓ ⊔ κ) where
    all_done : (s : Remote V) → RunsBatch h [] s (ok s)
    next :
        (batch rest : List A) (x : A) (s s' : Remote V) (r : Outcome Wait (Remote V))
        → Takes batch x rest
        → h s x ≡ ok s'
        → RunsBatch h rest s' r
        → RunsBatch h batch s r
    stops :
        (batch rest : List A) (x : A) (s : Remote V)
        → Takes batch x rest
        → h s x ≡ panic
        → RunsBatch h batch s panic

  -- One batch after the other.
  pub data RunsBatches {A : Type κ} (h : Remote V → A → Outcome Wait (Remote V))
      : List (List A) → Remote V → Outcome Wait (Remote V) → Type (ℓ ⊔ κ) where
    no_more : (s : Remote V) → RunsBatches h [] s (ok s)
    one_more :
        (batch : List A) (batches : List (List A)) (s s' : Remote V) (r : Outcome Wait (Remote V))
        → RunsBatch h batch s (ok s')
        → RunsBatches h batches s' r
        → RunsBatches h (batch ∷ batches) s r
    broken :
        (batch : List A) (batches : List (List A)) (s : Remote V)
        → RunsBatch h batch s panic
        → RunsBatches h (batch ∷ batches) s panic

module _ {ℓ} {V : Type ℓ} where
  abbrev pub RemoteReadChanHandler :
      (List ℕ → Option (Msg V))
      → Dictionary
      → List (Event (List ℕ))
      → Remote V
      → Outcome Wait (Remote V)
      → Type ℓ
  RemoteReadChanHandler unmarshal d events s r =
      RunsBatches (handle_remote unmarshal d) (batch_loop events []).0 s r

  abbrev pub RemotePushChanHandler :
      Dictionary → List (Event (Msg V)) → Remote V → Outcome Wait (Remote V) → Type ℓ
  RemotePushChanHandler d events s r = RunsBatches (handle_push d) (batch_loop events []).0 s r
