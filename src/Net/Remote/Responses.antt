-- ===== src/Net/Remote/Responses.antt =====
-- What becomes of a message of another server.
use recreation_test.Base.{
  ℕ, ◌%◌, ◌<◌, ◌≤◌, ◌≡◌, ◌≢◌, ◌⊎◌, inl, inr, Option-cases, refl, ap, ◌∙◌, Bool, true, false,
  if◌then◌else◌, ◌||◌, ◌==◌, List, [], ◌∷◌, ◌++◌, length, Option, none, some, Str, Outcome, ok, err,
  panic, ◌>>=◌, arith,
}
use recreation_test.Protocol.PackageType
use recreation_test.Protocol.MessageType
use recreation_test.Protocol.Tools.{int_to_bytes}
use recreation_test.Protocol.Types.{Message, Dictionary, HandshakeBody, message, exactly}
use recreation_test.Protocol.Dictionary.Inverse.{IsInverse}
use recreation_test.Protocol.Message.{message_encode}
use recreation_test.Protocol.Message.RoundTrip.{IsSendable, received}
use recreation_test.Protocol.Packet.{encode, decode}
use recreation_test.Protocol.Packet.RoundTrip.{decode-framed}
use recreation_test.Net.Session.{free, writer, Wait}
use recreation_test.Net.Clients.{Manager, WsConnection, find_client}
use recreation_test.Net.Serve.{push_targets}
use recreation_test.Net.Serve.Capacity.{push_targets_fatal}
use recreation_test.Net.Handlers.Replies.{encode_data}
use recreation_test.Net.Stream
use recreation_test.Net.Stream.{Msg}
use recreation_test.Net.Remote.{
  Remote, as_response, unlocked, send_to_users, send_to_client, send_packet, response, respond,
  send_to, answer_remote, push_remote, handle_body, handle_msg, handle_remote, handle_push,
}

-- A body that is answered: a request or a response.
abbrev pub IsAnswered : Message → Type 0
IsAnswered body = (body.type ≡ MessageType.request) ⊎ (body.type ≡ MessageType.response)

unlocked_fatal {ℓ} :
    {V : Type ℓ} (push_user : List Str) (buckets : List (List (Str × WsConnection V)))
    → 0 < length buckets
    → push_targets push_user (unlocked buckets) ≡ panic
unlocked_fatal push_user [] h = absurd (omega arith)
unlocked_fatal push_user (b ∷ rest) h =
    push_targets_fatal push_user free b (unlocked rest) (λ (e : free ≡ writer). cc)

send_to_users_fatal {ℓ} :
    {V : Type ℓ} (m : Manager V) (push_user : List Str) (res : List ℕ)
    → 0 < length push_user
    → 0 < length m.client_buckets
    → send_to_users m push_user res ≡ panic
unfolding send_to_users
send_to_users_fatal m [] res h k = absurd (omega arith)
send_to_users_fatal m (uid ∷ uids) res h k =
    rw (unlocked_fatal (uid ∷ uids) m.client_buckets k) refl

-- A packet for one connection, if it is there.
abbrev pub to_connection {ℓ} : {V : Type ℓ} → List ℕ → Option (WsConnection V) → List (Str × List ℕ)
to_connection packet none = []
to_connection packet (some conn) = (conn.session.cid, packet) ∷ []

-- Whether a connection is there whose write channel is closed.
abbrev pub is_shut {ℓ} : {V : Type ℓ} → Option (WsConnection V) → Bool
is_shut none = false
is_shut (some conn) = conn.write_chan_closed

module _ {ℓ} {V : Type ℓ} (d : Dictionary) (s : Remote V) (msg : Msg V) where
  send_to_client_lem :
      (cid : Str) (res : List ℕ)
      → 0 < length cid
      → send_to_client s.manager cid res ≡ (
          if is_shut (find_client s.manager cid)
          then panic
          else ok (to_connection res (find_client s.manager cid)))
  unfolding send_to_client send_to
  send_to_client_lem [] res h = absurd (omega arith)
  send_to_client_lem (c ∷ cid) res h = elim (Option-cases (find_client s.manager (c ∷ cid))) [
    | inl gone ↦ rw (gone, send_to_client) refl
    | inr (conn, here) ↦ rw (here, send_to_client) refl
  ]

  send_packet_lem :
      (body : Message) (res : List ℕ)
      → 0 < length msg.cid
      → body.type ≡ MessageType.response
      → send_packet s.manager msg body res ≡ (
          if is_shut (find_client s.manager msg.cid)
          then panic
          else ok (to_connection res (find_client s.manager msg.cid)))
  unfolding send_packet
  send_packet_lem body res named e =
      let t : (body.type == MessageType.push) ≡ false = ground (arith, e) in
      rw t (send_to_client_lem msg.cid res named)

  -- What has been answered is no push any more.
  answered_lem :
      (body : Message) (r : Outcome Wait (Remote V))
      → ((r >>= (λ s'. ok (s', as_response body))) >>= push_remote d msg) ≡ r
  unfolding push_remote
  answered_lem body (ok s') = refl
  answered_lem body (err e) = refl
  answered_lem body panic = refl

  answer_remote_lem :
      (body : Message)
      → IsAnswered body
      → answer_remote d s msg body ≡ (
          respond d s (record msg { body = some (as_response body) }) (as_response body)
          >>= (λ s'. ok (s', as_response body)))
  unfolding answer_remote
  answer_remote_lem body answered =
      let t : ((body.type == MessageType.request) || (body.type == MessageType.response)) ≡ true =
        ground (arith, answered) in
      rw t refl

  handle_answered :
      (body : Message)
      → msg.session_type ≢ Stream.session
      → msg.body ≡ some body
      → IsAnswered body
      → handle_msg d s msg
        ≡ respond d s (record msg { body = some (as_response body) }) (as_response body)
  unfolding handle_msg handle_body
  handle_answered body other e answered =
      let t : (msg.session_type == Stream.session) ≡ false = ground (arith, other) in
      rw t (
        ap (handle_body d s msg) e
        ∙ ap (λ (r : Outcome Wait (Remote V × Message)). r >>= push_remote d msg)
            (answer_remote_lem body answered)
        ∙ answered_lem body _)

  respond_packet :
      (body : Message) (packet : List ℕ) (sent : Outcome Wait (List (Str × List ℕ)))
      → encode PackageType.data_packet (message_encode d body) ≡ ok packet
      → send_packet s.manager msg body packet ≡ sent
      → respond d s msg body ≡ (sent >>= (λ out. ok (record s { written = s.written ++ out })))
  unfolding respond response
  respond_packet body packet sent e f = rw (e, response) (rw f refl)

given_or_stopped {ℓ} :
    {V : Type ℓ} (s : Remote V) (is_closed : Bool) (out : List (Str × List ℕ))
    → let sent : Outcome Wait (List (Str × List ℕ)) = if is_closed then panic else ok out in
      let s' : Outcome Wait (Remote V) =
        if is_closed then panic else ok (record s { written = s.written ++ out }) in
      (sent >>= (λ o. ok (record s { written = s.written ++ o }))) ≡ s'
given_or_stopped s true out = refl
given_or_stopped s false out = refl

-- The packet of an answer.
abbrev pub answer_packet : Dictionary → Message → List ℕ
answer_packet d body =
    let buf = message_encode d (as_response body) in
    PackageType.data_packet ∷ (int_to_bytes (length buf) ++ buf)

pub handle_remote_lem {ℓ} :
    {V : Type ℓ} (unmarshal : List ℕ → Option (Msg V)) (d : Dictionary) (s : Remote V)
    (text : List ℕ) (msg : Msg V) (body : Message)
    → unmarshal text ≡ some msg
    → msg.session_type ≢ Stream.session
    → msg.body ≡ some body
    → IsAnswered body
    → 0 < length msg.cid
    → length (message_encode d (as_response body)) ≤ 16_777_216
    → handle_remote unmarshal d s text ≡ (
        if is_shut (find_client s.manager msg.cid)
        then panic
        else ok (record s {
          written =
              s.written ++ to_connection (answer_packet d body) (find_client s.manager msg.cid);
        }))
unfolding handle_remote
handle_remote_lem unmarshal d s text msg body e other has answered named small =
    rw (e, handle_remote)
      (handle_answered d s msg body other has answered
        ∙ respond_packet d s (record msg { body = some (as_response body) }) (as_response body)
            (answer_packet d body) _ (encode_data (message_encode d (as_response body)) small)
            (send_packet_lem d s (record msg { body = some (as_response body) }) (as_response body)
              (answer_packet d body) named refl)
        ∙ given_or_stopped s (is_shut (find_client s.manager msg.cid)) _)

-- A message of another server that carries a request or a response reaches the connection that it names,
-- and no other, if that connection is known and its write channel is open: `SendMessage` is given a packet
-- that the client decodes to a response with the id and the bytes of the message, and nothing else changes.
-- If the connection is gone, nothing is written; if it is known and its write channel is closed, the
-- connector stops. The connection's id is not empty, and the response fits the format.
pub handle_remote_answers {ℓ} :
    {V : Type ℓ} (unmarshal : List ℕ → Option (Msg V)) (d : Dictionary) (s : Remote V)
    (text : List ℕ) (msg : Msg V) (body : Message) (inflate : List ℕ → Option (List ℕ))
    (shake : List ℕ → Option HandshakeBody)
    → unmarshal text ≡ some msg
    → msg.session_type ≢ Stream.session
    → msg.body ≡ some body
    → IsAnswered body
    → 0 < length msg.cid
    → IsInverse d
    → IsSendable d (as_response body)
    → length (message_encode d (as_response body)) ≤ 16_777_216
    → (packet : List ℕ) × (handle_remote unmarshal d s text ≡ (
        if is_shut (find_client s.manager msg.cid)
        then panic
        else ok (record s {
          written = s.written ++ to_connection packet (find_client s.manager msg.cid);
        })))
      × (decode inflate shake d (exactly packet) ≡ (
        ok (record {
          type = PackageType.data_packet;
          len = length (message_encode d (as_response body)) % 16_777_216;
          body = message (received d (as_response body));
        }),
        d,
      ))
handle_remote_answers unmarshal d s text msg body inflate shake e other has answered named v fits
      small =
    (
      answer_packet d body,
      handle_remote_lem unmarshal d s text msg body e other has answered named small,
      decode-framed inflate shake d (as_response body) (answer_packet d body) [] v fits
          (encode_data (message_encode d (as_response body)) small),
    )

-- A push of another server to users stops the connector, if it has a bucket, the push fits a packet and no
-- users were left out: no client gets it.
pub handle_push_fatal {ℓ} :
    {V : Type ℓ} (d : Dictionary) (s : Remote V) (msg : Msg V) (body : Message)
    → msg.body ≡ some body
    → body.type ≡ MessageType.push
    → 0 < length msg.push_user
    → 0 < length s.manager.client_buckets
    → length (message_encode d body) ≤ 16_777_216
    → handle_push d s msg ≡ panic
unfolding handle_push respond response send_packet
handle_push_fatal d s msg body e push users buckets small =
    let t : (body.type == MessageType.push) ≡ true = ground (arith, push) in
    rw (e, handle_push)
      (rw t (
        rw (encode_data (message_encode d body) small, response)
          (rw t (rw (send_to_users_fatal s.manager msg.push_user _ users buckets) refl))))
