-- ===== src/Net/Serve.antt =====
-- framework/net/ws_manager.go: `serveWS`, up to the start of a connection's goroutines, and the reading of
-- the buckets by a push in `Response`. The upgrade of the request is a parameter: the new connection with
-- its new session, or `none` if it fails. A request runs here with no other in between; of requests that
-- overlap several can pass the capacity check, and then `addClient` decides.
pub mod Capacity
use recreation_test.Base.{
  ℕ, Bool, true, false, ◌||◌, not, if◌then◌else◌, List, [], ◌∷◌, ◌++◌, Option, none, some, Str,
  str_eq, Outcome, ok, err, panic, ◌>>=◌, lookup, insert, string_eq,
}
use recreation_test.Base.Int.{to_int32, ltb_int32}
use recreation_test.Limit.{RateLimiter, allow}
use recreation_test.Net.Session.{RwMutex, Wait, r_lock, unlock}
use recreation_test.Net.Clients.{WsConnection, Manager, add_client}

-- The answer to a request; a connection that is run may have been closed by `addClient`.
pub data Answer {ℓ} (V : Type ℓ) : Type ℓ where
  too_many_requests service_unavailable upgrade_failed : Answer V
  run : WsConnection V → Answer V

-- `lo.Contains`.
unfoldable pub contains : List Str → Str → Bool
contains [] x = false
contains (y ∷ ys) x = str_eq y x || contains ys x

module _ {ℓ} {V : Type ℓ} where
  unfoldable pub upgrade : Manager V → Option (WsConnection V) → Answer V × Manager V
  upgrade m none = (upgrade_failed, m)
  upgrade m (some client) = (run (add_client m client).0, (add_client m client).1)

  unfoldable pub serve_ws :
      RateLimiter → ℕ → Manager V → Option (WsConnection V) → Answer V × RateLimiter × Manager V
  serve_ws rl now m upgraded =
      let rl' = (allow rl now).1 in
      let (answer, m') = upgrade m upgraded in
      if not (allow rl now).0
      then (too_many_requests, rl', m)
      else if not (ltb_int32 m.current_connections (to_int32 m.max_connections))
      then (service_unavailable, rl', m)
      else (answer, rl', m')

  -- The connections of the users in one bucket.
  collect : List Str → List (Str × WsConnection V) → List (WsConnection V)
  collect push_user [] = []
  collect push_user ((cid, conn) ∷ rest) =
      let others = collect push_user rest in
      if contains push_user conn.session.uid then conn ∷ others else others

  -- A bucket's goroutine: `RLock`, the loop, and `Unlock`.
  unfoldable pub collect_bucket :
      List Str
      → RwMutex
      → List (Str × WsConnection V)
      → Outcome Wait (List (WsConnection V) × RwMutex)
  unfolding contains collect
  collect_bucket push_user mutex clients = do
    held ← r_lock mutex
    let conns = collect push_user clients
    released ← unlock held
    ok (conns, released)

  -- All buckets, each with its lock; one goroutine that stops the program stops it for all.
  unfoldable pub push_targets :
      List Str → List (RwMutex × List (Str × WsConnection V)) → Outcome Wait (List (WsConnection V))
  push_targets push_user [] = ok []
  push_targets push_user ((mutex, clients) ∷ rest) = do
    bucket ← collect_bucket push_user mutex clients
    others ← push_targets push_user rest
    ok (bucket.0 ++ others)
