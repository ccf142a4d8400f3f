-- ===== src/Net/Serve/Capacity.antt =====
-- When a request becomes a connection, and what a push does.
use recreation_test.Base.{ℕ, ◌≤◌, ◌<◌, ◌≡◌, ◌≢◌, refl, ltb, List, ◌∷◌, some, Str, panic, arith}
use recreation_test.Base.Int.{to_int32, ltb_int32}
use recreation_test.Limit.{RateLimiter, unit, refilled, allow}
use recreation_test.Limit.Bound.{allow_exact}
use recreation_test.Net.Session.{RwMutex, free, readers, writer, r_lock, unlock}
use recreation_test.Net.Clients.{WsConnection, Manager, add_client}
use recreation_test.Net.Clients.Maps.{total}
use recreation_test.Net.Clients.Invariant.{IsWellFormed, welcomed, add_client_cases}
use recreation_test.Net.Serve.{
  too_many_requests, service_unavailable, run, upgrade, serve_ws, collect_bucket, push_targets,
}

module _ {ℓ} {V : Type ℓ} where
  -- A request that overlaps no other, and whose upgrade succeeds, takes a token and is refused without one;
  -- it is refused at capacity; and otherwise its connection is accepted. The maximum is below 2 ^ 31.
  pub serve_ws_cases :
      (rl : RateLimiter) (now : ℕ) (m : Manager V) (client : WsConnection V)
      → IsWellFormed m
      → m.max_connections < 2_147_483_648
      → let result = serve_ws rl now m (some client) in
        (refilled rl now < unit → result ≡ (too_many_requests, (allow rl now).1, m))
        × (unit ≤ refilled rl now
            → total m.client_buckets ≡ m.max_connections
            → result ≡ (service_unavailable, (allow rl now).1, m))
        × (unit ≤ refilled rl now
            → total m.client_buckets ≢ m.max_connections
            → result ≡ (run (welcomed m client), (allow rl now).1, (add_client m client).1))
  unfolding serve_ws upgrade
  serve_ws_cases rl now m client w small =
      let (passed, rest) = allow_exact rl now in
      let (refused, accepted) = add_client_cases m client w in
      let below : ltb_int32 m.current_connections (to_int32 m.max_connections)
          ≡ ltb (total m.client_buckets) m.max_connections =
        ground (arith, w.counter, w.slots, w.bounded) in
      (
        λ few. ground (arith, passed),
        λ enough full. ground (arith, passed, below),
        λ enough room. ground (arith, passed, below, (accepted room).0, w.slots, w.bounded),
      )

  -- A push to users stops the program as soon as the first bucket is read, if no writer holds its lock.
  pub push_targets_fatal :
      (push_user : List Str) (mutex : RwMutex) (clients : List (Str × WsConnection V))
      (rest : List (RwMutex × List (Str × WsConnection V)))
      → mutex ≢ writer
      → push_targets push_user ((mutex, clients) ∷ rest) ≡ panic
  unfolding push_targets collect_bucket r_lock unlock
  push_targets_fatal push_user free clients rest h = refl
  push_targets_fatal push_user (readers n) clients rest h = refl
  push_targets_fatal push_user writer clients rest h = absurd (h refl)
