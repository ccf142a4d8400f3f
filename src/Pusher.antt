-- ===== src/Pusher.antt =====
-- framework/pusher/pusher.go and framework/stream/push.go: a push to users, sent to the connectors that they
-- are connected to. A message is listed as it is sent, under its JSON; `range` visits the map of the users
-- in the order of the association list. `none` says that the goroutine has panicked.
pub mod Groups
pub mod Notify
mod Tests
use recreation_test.Base.{
  ℕ, Bool, false, List, [], ◌∷◌, ◌++◌, map, Option, none, some, Str, lookup, insert, string_eq,
}
use recreation_test.Protocol.MessageType
use recreation_test.Protocol.Types.{Message}
use recreation_test.Net.Stream
use recreation_test.Net.Stream.{Msg}

pub record PushUser : Type 0 where
  pub uid : Str
  pub connector_id : Str

pub record PushData : Type 0 where
  pub data_bytes : List ℕ
  pub router : Str

pub record PushMessage {ℓ} (V : Type ℓ) : Type ℓ where
  pub push_data : PushData
  pub users : List PushUser
  pub msg : Msg V

abbrev pub or_nil : Option (List Str) → List Str
or_nil none = []
or_nil (some uids) = uids

-- One round of the loop over the users.
unfoldable pub add_user : List (Str × List Str) → PushUser → List (Str × List Str)
add_user user_map v =
    insert v.connector_id (or_nil (lookup v.connector_id user_map) ++ (v.uid ∷ [])) user_map

unfoldable pub user_map : List PushUser → List (Str × List Str) → List (Str × List Str)
user_map [] m = m
user_map (v ∷ users) m = user_map users (add_user m v)

module _ {ℓ} {V : Type ℓ} where
  -- `Push`: what it puts into the channel, where `data_bytes` is the JSON of the data.
  unfoldable pub push : Msg V → List PushUser → List ℕ → Str → PushMessage V
  push m users data_bytes router = record {
    push_data = record { data_bytes = data_bytes; router = router };
    users = users;
    msg = m;
  }

  unfoldable pub push_body : PushMessage V → Message → Message
  push_body p body = record {
    type = MessageType.push;
    id = body.id;
    route = p.push_data.router;
    data_bytes = p.push_data.data_bytes;
    route_compressed = false;
    error = false;
  }

  -- The message for one connector.
  unfoldable pub message_to : PushMessage V → Message → Str × List Str → Msg V
  message_to p body (dst, uids) = record {
    cid = p.msg.cid;
    body = some (push_body p body);
    src = p.msg.dst;
    dst = dst;
    router = [];
    uid = p.msg.uid;
    connector_id = [];
    session_data = none;
    session_type = Stream.normal;
    push_user = uids;
  }

  unfoldable pub messages_with : PushMessage V → Option Message → Option (List (Msg V))
  messages_with p none = none
  messages_with p (some body) = some (map (message_to p body) (user_map p.users []))

  -- `pushChanRead`, for one element of the channel: what is sent, each message to its `Dst`.
  unfoldable pub push_messages : PushMessage V → Option (List (Msg V))
  push_messages p = messages_with p p.msg.body
