-- ===== src/Pusher/Notify.antt =====
-- `UpdateUserDataNotify` of core/service/user.go: what a user is told of its own data. The JSON encoder is a
-- parameter, and the map of the data exists.
use recreation_test.Base.{
  ℕ, ◌≡◌, refl, ap, List, [], ◌∷◌, Option, none, some, Str, bytes, lookup, insert, string_eq,
}
use recreation_test.Protocol.Types.{Message}
use recreation_test.Net.Stream.{Msg}
use recreation_test.Pusher.{
  PushMessage, push, add_user, user_map, push_body, message_to, messages_with, push_messages,
}

module _ {ℓ} {V : Type ℓ} (marshal : List (Str × V) → List ℕ) (of_string : Str → V) where
  -- The push that is handed to the pusher, if the user is connected.
  unfoldable pub update_user_data_notify :
      Str → Str → List (Str × V) → Msg V → Option (PushMessage V)
  update_user_data_notify uid [] new msg = none
  update_user_data_notify uid (c ∷ frontend_id) new msg =
      let marked = insert (bytes "pushRouter") (of_string (bytes "UpdateUserInfoPush")) new in
      some (
        push msg (record { uid = uid; connector_id = c ∷ frontend_id } ∷ []) (marshal marked)
          (bytes "ServerMessagePush"))

  -- A user that is connected is told with one message, to its connector and for itself alone, whose data
  -- are the new data under the mark of the push.
  pub notify_lem :
      (uid frontend_id : Str) (c : ℕ) (new : List (Str × V)) (msg : Msg V) (body : Message)
      → msg.body ≡ some body
      → (p : PushMessage V) × (update_user_data_notify uid (c ∷ frontend_id) new msg ≡ some p)
        × (push_messages p ≡ some (message_to p body (c ∷ frontend_id, uid ∷ []) ∷ []))
        × ((push_body p body).data_bytes
            ≡ marshal (insert (bytes "pushRouter") (of_string (bytes "UpdateUserInfoPush")) new))
  unfolding update_user_data_notify push push_messages messages_with user_map add_user push_body
      lookup insert
  notify_lem uid frontend_id c new msg body has =
      let p =
        push msg (record { uid = uid; connector_id = c ∷ frontend_id } ∷ [])
          (marshal (insert (bytes "pushRouter") (of_string (bytes "UpdateUserInfoPush")) new))
          (bytes "ServerMessagePush") in
      (p, refl, ap (messages_with p) has, refl)
