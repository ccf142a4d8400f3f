-- ===== src/Net/Clients/Overlap.antt =====
-- framework/net/ws_manager.go: two calls of `setSessionData` that overlap, as the goroutines of a batch may.
-- `m.data` and each session have a lock of their own, so the other call may come between the two writes.
use mathlib.Core.Option
use mathlib.Core.Option.{some_inj}
use recreation_test.Base.{
  ◌≡◌, ◌≢◌, false, refl, sym, ap, ◌∙◌, List, Option, some, Str, lookup, string_eq,
}
use recreation_test.Net.Session.{write_all, set_all_body}
use recreation_test.Net.Clients.{
  WsConnection, Manager, find_client, get_bucket, with_all, store_all, spread_all, set_all_data,
}
use recreation_test.Net.Clients.Maps.{AreDistinct, find_client-mapped}
use recreation_test.Net.Clients.Sharing.{
  either, lookup-write_all, IsShared, Reaches, Reaches-IsShared,
}

module _ {ℓ} {V : Type ℓ} where
  -- The first call stores its data, the second one runs as a whole, and the first one goes on.
  abbrev pub overlapped : Manager V → List (Str × V) → List (Str × V) → Manager V
  overlapped m first second = spread_all (set_all_data (store_all m first) second) first

  -- What a later write leaves under a key that it writes.
  written_last :
      (new old : List (Str × V)) (k : Str) (v : V)
      → AreDistinct new
      → lookup k new ≡ some v
      → lookup k (write_all new old) ≡ some v
  written_last new old k v d e =
      lookup-write_all new old k d ∙ ap (λ (o : Option V). either o (lookup k old)) e

  find_client-spread_all :
      (m : Manager V) (new : List (Str × V)) (cid : Str)
      → find_client (spread_all m new) cid ≡ Option.map (with_all new) (find_client m cid)
  unfolding spread_all
  find_client-spread_all m new cid = find_client-mapped (with_all new) m m.shared cid

  find_client-store_all :
      (m : Manager V) (new : List (Str × V)) (cid : Str)
      → find_client (store_all m new) cid ≡ find_client m cid
  unfolding store_all find_client get_bucket
  find_client-store_all m new cid = refl

  find_client-set_all_data :
      (m : Manager V) (new : List (Str × V)) (cid : Str)
      → find_client (set_all_data m new) cid ≡ Option.map (with_all new) (find_client m cid)
  unfolding set_all_data
  find_client-set_all_data m new cid =
      find_client-spread_all (store_all m new) new cid
      ∙ ap (Option.map (with_all new)) (find_client-store_all m new cid)

-- What an overlap leaves under a key that both calls write: the session of a known connection has the value
-- of the first call, and the shared data that of the second one.
overlap_diverges {ℓ} :
    {V : Type ℓ} (m : Manager V) (first second : List (Str × V)) (cid k : Str) (v w : V)
    (c : WsConnection V)
    → AreDistinct first
    → AreDistinct second
    → lookup k first ≡ some v
    → lookup k second ≡ some w
    → find_client m cid ≡ some c
    → let d = with_all first (with_all second c) in
      (find_client (overlapped m first second) cid ≡ some d)
      × (lookup k d.session.all ≡ some v)
      × (lookup k (overlapped m first second).shared ≡ some w)
unfolding set_all_body set_all_data store_all spread_all with_all
overlap_diverges m first second cid k v w c df ds e f here = (
  find_client-spread_all (set_all_data (store_all m first) second) first cid
      ∙ ap (Option.map (with_all first)) (
          find_client-set_all_data (store_all m first) second cid
          ∙ ap (Option.map (with_all second)) (find_client-store_all m first cid ∙ here)),
  written_last first _ k v df e,
  written_last second _ k w ds f,
)

-- In every manager that is reached from a new one by calls that run one after another, by connections that
-- come with ids not in use and with no shared data yet, that go, that are closed or whose writer ends, and
-- by session data from other servers, each connection that is known and open has in its session the shared
-- entries of the manager, key for key, however late it came. Two calls of `setSessionData` that overlap,
-- the second one between the two writes of the first one, break this, if they have different values for a
-- key and an open connection is known.
pub sharing_cases {ℓ} :
    {V : Type ℓ} (m : Manager V)
    → Reaches m
    → IsShared m
      × ((first second : List (Str × V)) (cid k : Str) (v w : V) (c : WsConnection V)
          → AreDistinct first
          → AreDistinct second
          → lookup k first ≡ some v
          → lookup k second ≡ some w
          → v ≢ w
          → find_client m cid ≡ some c
          → c.closed ≡ false
          → ¬ IsShared (overlapped m first second))
unfolding with_all
sharing_cases m r = (
  Reaches-IsShared m r,
  λ first second cid k v w c df ds e f apart here is_open shared.
      let (known, kept, stored) = overlap_diverges m first second cid k v w c df ds e f here in
      apart (
        some_inj.0 (
          sym kept
          ∙ shared.same cid (with_all first (with_all second c)) known is_open k
          ∙ stored)),
)
