-- ===== src/Net/Remote/Answered.antt =====
-- The answers that come in batches, in whatever order the goroutines of a batch run.
use mathlib.Core.Path.{subst}
use mathlib.Core.List.{Perm}
use recreation_test.Base.{
  ℕ, ◌<◌, ◌≤◌, ◌≡◌, ◌≢◌, refl, sym, ap, ◌∙◌, false, List, [], ◌∷◌, ◌++◌, length, Option, none, some,
  Str, Outcome, ok, panic, if◌then◌else◌, All,
}
use recreation_test.Protocol.Types.{Message, Dictionary}
use recreation_test.Protocol.Message.{message_encode}
use recreation_test.Net.Session.{Wait}
use recreation_test.Net.Clients.{Manager, find_client}
use recreation_test.Net.Stream
use recreation_test.Net.Stream.{Msg}
use recreation_test.Net.Batches.{Event, batch_loop}
use recreation_test.Net.Batches.Delivery.{join, deliveries, IsFlush, batch_loop_flush}
use recreation_test.Net.Remote.{Remote, as_response, handle_remote, RemoteReadChanHandler}
use recreation_test.Net.Remote.Batched.{outputs, Gives, RunsBatches-Gives, Batches_in_order}
use recreation_test.Net.Remote.Responses.{
  IsAnswered, to_connection, is_shut, answer_packet, handle_remote_lem,
}

-- A message, as its bytes, that carries a request or a response of a connection which is gone, or whose write
-- channel is open; the response fits a packet.
pub record IsAnswer {ℓ} {V : Type ℓ} (unmarshal : List ℕ → Option (Msg V)) (d : Dictionary)
    (m : Manager V) (text : List ℕ) : Type ℓ where
  pub msg : Msg V
  pub body : Message
  pub decoded : unmarshal text ≡ some msg
  pub not_session : msg.session_type ≢ Stream.session
  pub carried : msg.body ≡ some body
  pub answered : IsAnswered body
  pub named : 0 < length msg.cid
  pub small : length (message_encode d (as_response body)) ≤ 16_777_216
  pub unshut : is_shut (find_client m msg.cid) ≡ false

module _ {ℓ} {V : Type ℓ} (d : Dictionary) (m : Manager V) where
  abbrev answer_of_body : Msg V → Option Message → List (Str × List ℕ)
  answer_of_body msg none = []
  answer_of_body msg (some body) = to_connection (answer_packet d body) (find_client m msg.cid)

  abbrev answer_of_msg : Option (Msg V) → List (Str × List ℕ)
  answer_of_msg none = []
  answer_of_msg (some msg) = answer_of_body msg msg.body

  -- The packet that answers a message, with the connection that it names, if that is known.
  abbrev pub answer_to : (List ℕ → Option (Msg V)) → List ℕ → List (Str × List ℕ)
  answer_to unmarshal text = answer_of_msg (unmarshal text)

  answer_to_lem :
      (unmarshal : List ℕ → Option (Msg V)) (text : List ℕ) (a : IsAnswer unmarshal d m text)
      → to_connection (answer_packet d a.body) (find_client m a.msg.cid) ≡ answer_to unmarshal text
  answer_to_lem unmarshal text a =
      sym (ap answer_of_msg a.decoded ∙ ap (answer_of_body a.msg) a.carried)

  handle_remote-answer :
      (unmarshal : List ℕ → Option (Msg V)) (s : Remote V) (text : List ℕ)
      → s.manager ≡ m
      → IsAnswer unmarshal d m text
      → handle_remote unmarshal d s text
        ≡ ok (record s { written = s.written ++ answer_to unmarshal text })
  handle_remote-answer unmarshal s text same a =
      let done : Manager V → Outcome Wait (Remote V) = λ m'.
        if is_shut (find_client m' a.msg.cid)
        then panic
        else ok (record s {
          written = s.written ++ to_connection (answer_packet d a.body) (find_client m' a.msg.cid);
        }) in
      handle_remote_lem unmarshal d s text a.msg a.body a.decoded a.not_session a.carried a.answered
        a.named a.small
      ∙ ap done same
      ∙ rw a.unshut (
          ap (λ (o : List (Str × List ℕ)). ok (record s { written = s.written ++ o }))
            (answer_to_lem unmarshal text a))

-- Once a tick or the end of the channel has come, each message that was delivered has been answered exactly
-- once, to the connection that it names if that is known, in whatever order the goroutines of the batches
-- have run: no run stops the connector, nothing but what was written changes, and a run exists. Each message
-- carries a request or a response that fits a packet, and no connection it names has a closed write channel.
pub every_message_answered {ℓ} :
    {V : Type ℓ} (unmarshal : List ℕ → Option (Msg V)) (d : Dictionary)
    (events : List (Event (List ℕ))) (last : Event (List ℕ)) (s : Remote V)
    → IsFlush last
    → All (IsAnswer unmarshal d s.manager) (deliveries events)
    → ((r : Outcome Wait (Remote V))
        → RemoteReadChanHandler unmarshal d (events ++ (last ∷ [])) s r
        → (more : List (Str × List ℕ)) × (r ≡ ok (record s { written = s.written ++ more }))
          × Perm more (outputs (answer_to d s.manager unmarshal) (deliveries events)))
      × ((s' : Remote V) × RemoteReadChanHandler unmarshal d (events ++ (last ∷ [])) s (ok s'))
unfolding Gives
every_message_answered unmarshal d events last s flush all =
    let h = handle_remote unmarshal d in
    let out = answer_to d s.manager unmarshal in
    let P = IsAnswer unmarshal d s.manager in
    let batches = (batch_loop (events ++ (last ∷ [])) []).0 in
    let same : join batches ≡ deliveries events = (batch_loop_flush events last flush).0 in
    let all' : All P (join batches) = subst (All P) (sym same) all in
    let step = λ (s' : Remote _) (x : List ℕ). handle_remote-answer d s.manager unmarshal s' x in
    (
      λ r run.
          subst (λ (xs : List (List ℕ)). Gives s (outputs out xs) r) same
            (RunsBatches-Gives h out P s.manager step batches s r refl all' run),
      Batches_in_order h out P s.manager step batches s refl all',
    )
