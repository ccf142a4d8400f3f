-- ===== src/RemoteSession/Data.antt =====
-- What the session answers, and whom its messages reach.
use recreation_test.Base.{
  ◌≡◌, ◌≢◌, refl, ap, ◌∙◌, List, [], ◌∷◌, Option, none, some, Str, lookup, string_eq, Option-cases,
  inl, inr, All, All-append,
}
use recreation_test.Protocol.Types.{Message}
use recreation_test.Net.Session.{write_all, Session}
use recreation_test.Net.Clients.{SessionData}
use recreation_test.Net.Clients.Maps.{AreDistinct}
use recreation_test.Net.Clients.Sharing.{either, either-none, lookup-write_all}
use recreation_test.Net.Stream.{Msg, pushed}
use recreation_test.RemoteSession.{
  RemoteSession, new_remote_session, entries, set_data, get, send_msg, session_msg,
  push_session_chan_read,
}

get-either {ℓ} :
    {V : Type ℓ} (s : RemoteSession V) (key : Str)
    → get s key ≡ either (lookup key s.single_data) (lookup key s.all_data)
unfolding get
get-either s key = elim (Option-cases (lookup key s.single_data)) [
  | inl e ↦ rw (e, get) refl
  | inr (v, e) ↦ rw (e, get) refl
]

-- After data was set, a key has its new value for the connection, else the one it had for the connection
-- before, else the new value for all connections, else the one that all had before. No key is repeated in
-- either part of the data.
pub get-set_data {ℓ} :
    {V : Type ℓ} (s : RemoteSession V) (d : SessionData V) (key : Str)
    → AreDistinct (entries d.single_data)
    → AreDistinct d.all_data
    → get (set_data s (some d)) key
      ≡ either
          (either (lookup key (entries d.single_data)) (lookup key s.single_data))
          (either (lookup key d.all_data) (lookup key s.all_data))
unfolding set_data
get-set_data s d key hs ha =
    get-either (set_data s (some d)) key
    ∙ ap (λ (o : Option _). either o (lookup key (write_all d.all_data s.all_data)))
        (lookup-write_all (entries d.single_data) s.single_data key hs)
    ∙ ap (either (either (lookup key (entries d.single_data)) (lookup key s.single_data)))
        (lookup-write_all d.all_data s.all_data key ha)

-- What a connection's session pushes, the session behind the message answers: of a key the value for the
-- connection, else the one for all. No key is repeated in either part of the data.
pub get-pushed {ℓ} :
    {V : Type ℓ} (server_id dst router key : Str) (c : Session V) (message : Option Message)
    → AreDistinct c.data_map
    → AreDistinct c.all
    → let msg = pushed server_id c dst router message in
      get (set_data (new_remote_session msg) msg.session_data) key
      ≡ either (lookup key c.data_map) (lookup key c.all)
unfolding pushed new_remote_session lookup
get-pushed server_id dst router key c message hs ha =
    let msg = pushed server_id c dst router message in
    get-set_data (new_remote_session msg)
      (record { single_data = some c.data_map; all_data = c.all }) key hs ha
    ∙ ap (λ (o : Option _). either o (either (lookup key c.all) none))
        (either-none (lookup key c.data_map))
    ∙ ap (either (lookup key c.data_map)) (either-none (lookup key c.all))

-- The loop of `pushSessionChanRead`, for what the channel delivers.
abbrev pub push_all {ℓ} :
    {V : Type ℓ} → RemoteSession V → List (Option (SessionData V)) → RemoteSession V
push_all s [] = s
push_all s (d ∷ ds) = push_all (push_session_chan_read s d) ds

-- Nothing was sent on a subject.
abbrev pub IsSilent {ℓ} : {V : Type ℓ} → Str → List (Str × Msg V) → Type 0
IsSilent subject = All (λ x. x.0 ≢ subject)

push_all-IsSilent {ℓ} :
    {V : Type ℓ} (s : RemoteSession V) (ds : List (Option (SessionData V))) (subject : Str)
    → s.msg.dst ≢ subject
    → IsSilent subject s.sent
    → IsSilent subject (push_all s ds).sent
unfolding push_session_chan_read send_msg
push_all-IsSilent s [] subject h quiet = quiet
push_all-IsSilent s (d ∷ ds) subject h quiet =
    push_all-IsSilent (push_session_chan_read s d) ds subject h
      (All-append (λ x. x.0 ≢ subject) s.sent ((s.msg.dst, session_msg s d) ∷ []) quiet (h, tt))

-- The session data that a server pushes never reaches the server that sent it the message, although each
-- pushed message names that one as its destination: it is published on the subject of the server itself.
pub push_all_misses {ℓ} :
    {V : Type ℓ} (msg : Msg V) (ds : List (Option (SessionData V)))
    → msg.dst ≢ msg.src
    → IsSilent msg.src (push_all (new_remote_session msg) ds).sent
unfolding new_remote_session
push_all_misses msg ds h = push_all-IsSilent (new_remote_session msg) ds msg.src h tt
