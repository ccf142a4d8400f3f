-- ===== src/Net/Stream.antt =====
-- framework/stream/message.go: the messages between the servers, and `PushData` of
-- framework/net/session.go, which sends one.
use recreation_test.Base.{ℕ, List, [], Option, some, Str, Bool}
use recreation_test.Protocol.Types.{Message}
use recreation_test.Net.Session.{Session}
use recreation_test.Net.Clients.{SessionData}

-- `SessionType`.
abbrev pub normal : ℕ
normal = 0

abbrev pub session : ℕ
session = 1

pub record Msg {ℓ} (V : Type ℓ) : Type ℓ where
  pub cid : Str
  pub body : Option Message
  pub src : Str
  pub dst : Str
  pub router : Str
  pub uid : Str
  pub connector_id : Str
  pub session_data : Option (SessionData V)
  pub session_type : ℕ
  pub push_user : List Str

module _ {ℓ} {V : Type ℓ} where
  -- The message of `PushData`, with the data of the session.
  unfoldable pub pushed : Str → Session V → Str → Str → Option Message → Msg V
  pushed server_id s dst router message = record {
    cid = s.cid;
    body = message;
    src = server_id;
    dst = dst;
    router = router;
    uid = s.uid;
    connector_id = server_id;
    session_data = some (record { single_data = some s.data_map; all_data = s.all });
    session_type = normal;
    push_user = [];
  }

  -- An error of `SendMsg` is only logged; `marshal` is the JSON encoder.
  unfoldable pub push_data {κ} :
      {N : Type κ}
      → (Msg V → List ℕ)
      → (Str → List ℕ → N → Bool × N)
      → Str
      → Session V
      → Str
      → Str
      → Option Message
      → N
      → N
  push_data marshal send_msg server_id s dst router message n =
      (send_msg dst (marshal (pushed server_id s dst router message)) n).1
