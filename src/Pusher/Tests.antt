-- ===== src/Pusher/Tests.antt =====
-- A push at a concrete input.
use mathlib.Core.Bool.{Bool}
use recreation_test.Base.{ℕ, ◌≡◌, refl, List, [], ◌∷◌, none, some, Str, bytes}
use recreation_test.Protocol.MessageType
use recreation_test.Protocol.Types.{Message}
use recreation_test.Net.Stream
use recreation_test.Net.Stream.{Msg}
use recreation_test.Pusher.{PushUser, PushMessage, push_messages}
use recreation_test.Pusher.Groups.{users_of, sent_to, join_users, message_for, push_messages_lem}

abbrev asked : Message
asked = record {
  type = MessageType.request;
  id = 9;
  route = [];
  data_bytes = [];
  route_compressed = Bool.false;
  error = Bool.false;
}

abbrev user_at : Str → Str → PushUser
user_at uid connector_id = record { uid = uid; connector_id = connector_id }

abbrev told : PushMessage ℕ
told = record {
  push_data = record { data_bytes = 7 ∷ []; router = bytes "r" };
  users =
      user_at (bytes "a") (bytes "g1")
      ∷ user_at (bytes "b") (bytes "g2")
      ∷ user_at (bytes "c") (bytes "g1")
      ∷ [];
  msg = record {
    cid = [];
    body = some asked;
    src = bytes "g1";
    dst = bytes "hall";
    router = [];
    uid = [];
    connector_id = [];
    session_data = none;
    session_type = Stream.normal;
    push_user = [];
  };
}

users_of_g1 : users_of (bytes "g1") told.users ≡ bytes "a" ∷ bytes "c" ∷ []
unfolding users_of
users_of_g1 = refl

push_messages_lem_example :
    (sent : List (Msg ℕ)) × (push_messages told ≡ some sent)
    × (sent_to (bytes "g1") sent
        ≡ message_for told asked (bytes "g1") (join_users none (users_of (bytes "g1") told.users)))
push_messages_lem_example = push_messages_lem told asked (bytes "g1") refl
