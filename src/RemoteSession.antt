-- ===== src/RemoteSession.antt =====
-- framework/remote/session.go: what a back-end server knows of the session behind a message. `sent` lists
-- what the client was given: the subject, and the message under its JSON; an error of `SendMsg` is only
-- logged. Each method runs with the lock free, and the loop of `pushSessionChanRead` is one round.
pub mod Data
use recreation_test.Base.{
  ℕ, List, [], ◌∷◌, ◌++◌, Option, none, some, Str, lookup, insert, string_eq,
}
use recreation_test.Net.Session.{write_all}
use recreation_test.Net.Clients.{SessionData}
use recreation_test.Net.Stream
use recreation_test.Net.Stream.{Msg}

pub record RemoteSession {ℓ} (V : Type ℓ) : Type ℓ where
  pub msg : Msg V
  pub single_data : List (Str × V)
  pub all_data : List (Str × V)
  pub server_id : Str
  pub sent : List (Str × Msg V)

module _ {ℓ} {V : Type ℓ} where
  unfoldable pub new_remote_session : Msg V → RemoteSession V
  new_remote_session msg = record {
    msg = msg;
    single_data = [];
    all_data = [];
    server_id = [];
    sent = [];
  }

  -- A nil map has no entries.
  abbrev pub entries : Option (List (Str × V)) → List (Str × V)
  entries none = []
  entries (some m) = m

  unfoldable pub set_data : RemoteSession V → Option (SessionData V) → RemoteSession V
  set_data s none = s
  set_data s (some d) = record s {
    single_data = write_all (entries d.single_data) s.single_data;
    all_data = write_all d.all_data s.all_data;
  }

  unfoldable pub get : RemoteSession V → Str → Option V
  get s key = elim (lookup key s.single_data) [ none ↦ lookup key s.all_data | some v ↦ some v ]

  unfoldable pub set_server_id : RemoteSession V → Str → RemoteSession V
  set_server_id s server_id = record s { server_id = server_id }

  unfoldable pub send_msg : Str → Msg V → RemoteSession V → RemoteSession V
  send_msg dst msg s = record s { sent = s.sent ++ ((dst, msg) ∷ []) }

  unfoldable pub send_proxy : RemoteSession V → Str → RemoteSession V
  send_proxy s new_dst =
      let msg = record s.msg { dst = new_dst } in send_msg new_dst msg (record s { msg = msg })

  unfoldable pub dispatch : RemoteSession V → Str → Str → RemoteSession V
  dispatch s router new_dst =
      let msg = record s.msg { router = router; dst = new_dst } in
      send_msg new_dst msg (record s { msg = msg })

  -- The message that takes data of the session back to where it came from.
  abbrev pub session_msg : RemoteSession V → Option (SessionData V) → Msg V
  session_msg s d = record {
    cid = s.msg.cid;
    body = none;
    src = s.msg.dst;
    dst = s.msg.src;
    router = [];
    uid = s.msg.uid;
    connector_id = [];
    session_data = d;
    session_type = Stream.session;
    push_user = [];
  }

  unfoldable pub push_session_chan_read : RemoteSession V → Option (SessionData V) → RemoteSession V
  push_session_chan_read s d = send_msg s.msg.dst (session_msg s d) s
