-- ===== src/Net/Handlers.antt =====
-- framework/net/ws_manager.go: `MessageHandler`. A connector handler is a function of the parameters: the
-- JSON of its result, or that it failed, and the session behind it. `sends` tells of each destination
-- whether the remote client takes a message for it; the message's session data is left out.
pub mod Replies
use recreation_test.Base.{
  ℕ, Bool, true, false, ◌==◌, if◌then◌else◌, List, [], ◌∷◌, ◌++◌, length, Option, none, some, Str,
  bytes, lookup, string_eq, Outcome, ok, err, panic, ◌>>=◌,
}
use recreation_test.Base.Text.{split}
use recreation_test.Game.Config.{Config, get_connector_by_server_type}
use recreation_test.Protocol.MessageType
use recreation_test.Protocol.Types.{Message, Dictionary, EncodeError}
use recreation_test.Protocol.Message.{message_encode}
use recreation_test.Protocol.Packet.{encode}
use recreation_test.Net.Context.{Context}
use recreation_test.Net.Selection.{LoadBalanceState, SelectError, select_dst}

pub data HandlerError : Type 0 where
  router_unsupported handler_failed send_failed : HandlerError
  encode_failed : EncodeError → HandlerError
  no_destination : SelectError → HandlerError

-- What was done: nothing, bytes to the client, or a message with its router to a server.
pub data Action : Type 0 where
  idle : Action
  sent : List ℕ → Action
  forwarded : Str → Str → Message → Action

unfoldable pub encode_reply : ℕ → List ℕ → Outcome HandlerError Action
encode_reply package_type buf = elim (encode package_type buf) [
  | ok packet ↦ ok (sent packet)
  | err e ↦ err (encode_failed e)
  | panic ↦ panic
]

-- The message that answers another one.
abbrev pub reply_to : Message → List ℕ → Message
reply_to m marshal = record m { type = MessageType.response; data_bytes = marshal }

unfoldable pub reply : Dictionary → ℕ → Message → Option (List ℕ) → Outcome HandlerError Action
reply d package_type m none = err handler_failed
reply d package_type m (some marshal) =
    encode_reply package_type (message_encode d (reply_to m marshal))

module _ {ℓ} {S : Type ℓ} (handlers : List (Str × (S → List ℕ → Option (List ℕ) × S))) where
  -- The branch for a server type of this connector; an unknown method is passed over.
  unfoldable pub handle_here : Dictionary → ℕ → Message → S → Str → Outcome HandlerError Action × S
  handle_here d package_type m session method = elim (lookup method handlers) [
    | none ↦ (ok idle, session)
    | some handler ↦
        (reply d package_type m (handler session m.data_bytes).0, (handler session m.data_bytes).1)
  ]

  module _ (intn : ℕ → ℕ) (sends : Str → Bool) (ctx : Option Context) (conf : Config) where
    unfoldable pub forward : Message → Str → Outcome SelectError Str → Outcome HandlerError Action
    forward m method (ok dst) = if sends dst then ok (forwarded dst method m) else err send_failed
    forward m method (err e) = err (no_destination e)
    forward m method panic = panic

    unfoldable pub handle_parts :
        Dictionary
        → ℕ
        → Message
        → S
        → LoadBalanceState
        → List Str
        → Outcome HandlerError Action × S × LoadBalanceState
    handle_parts d package_type m session lb (server_type ∷ (r1 ∷ (r2 ∷ []))) =
        let method = r1 ++ (bytes "." ++ r2) in
        elim (get_connector_by_server_type conf server_type) [
          | some connector ↦ (
            (handle_here d package_type m session method).0,
            (handle_here d package_type m session method).1,
            lb,
          )
          | none ↦ (
            forward m method (select_dst intn ctx conf lb server_type).0,
            session,
            (select_dst intn ctx conf lb server_type).1,
          )
        ]
    handle_parts d package_type m session lb other = (err router_unsupported, session, lb)

    unfoldable pub message_handler :
        Dictionary
        → ℕ
        → Message
        → S
        → LoadBalanceState
        → Outcome HandlerError Action × S × LoadBalanceState
    message_handler d package_type m session lb =
        handle_parts d package_type m session lb (split b'.' m.route)
