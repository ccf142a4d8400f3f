-- ===== src/Net/Clients.antt =====
-- framework/net/ws_manager.go and ws_connection.go: the connections of a `Manager`. A connection is the
-- value under its id: the ids are made unique by `WsConnectionPool.Get`, so no two connections share one.
-- Each function is a call that runs with no other in between: `add_client`, `remove_client` and the look-ups
-- hold the lock of their bucket, while calls of `setSessionData` of one batch may overlap, which
-- Net/Clients/Overlap shows, where the two writes of `set_all_data` are steps of their own.
-- `connSemaphore` is the number of slots that are taken. The index of a bucket is always in range, see
-- `bucket_index-lt`; out of range a bucket would be empty here. Of the push in `Response` only the reading
-- of the buckets is here.
pub mod Maps
pub mod Invariant
pub mod Sharing
pub mod Overlap
use Prim.Native.Nat.{bit_and}
use recreation_test.Base.{
  ℕ, zero, suc, ◌+◌, ◌-◌, ◌<◌, ◌≤◌, Bool, true, false, not, ltb, ◌==◌, if◌then◌else◌, List, [], ◌∷◌,
  map, length, get_elem?, Option, none, some, Str, lookup, insert, delete, string_eq, Outcome, ok,
  err, panic, ◌>>=◌,
}
use recreation_test.Base.Int.{int32_suc, int32_pred}
use recreation_test.Limit.{RateLimiter, allow}
use recreation_test.Net.Hash.{fnv32}
use recreation_test.Net.Session.{
  RwMutex, Wait, unlock, r_lock, Session, set_data_body, set_all_body, close_body, write_all,
  new_session,
}

abbrev pub bucket_count : ℕ
bucket_count = 32

abbrev pub bucket_mask : ℕ
bucket_mask = 31

-- `atomic.AddInt32` of `currentConnections`, by 1 and by -1.
unfoldable pub increment : ℕ → ℕ
increment n = int32_suc n

unfoldable pub decrement : ℕ → ℕ
decrement n = int32_pred n

module _ {ℓ} where
  -- `closed` says that `Close` has run, `write_chan_closed` that `WriteChan` is closed, which its writer does
  -- when it ends.
  pub record WsConnection (V : Type ℓ) : Type ℓ where
    pub session : Session V
    pub closed : Bool
    pub write_chan_closed : Bool

  pub record Manager (V : Type ℓ) : Type ℓ where
    pub client_buckets : List (List (Str × WsConnection V))
    pub shared : List (Str × V)
    pub max_connections : ℕ
    pub conn_semaphore : ℕ
    pub current_connections : ℕ

  pub record SessionData (V : Type ℓ) : Type ℓ where
    pub single_data : Option (List (Str × V))
    pub all_data : List (Str × V)

unfoldable pub bucket_index : Str → ℕ
bucket_index cid = bit_and (fnv32 cid) bucket_mask

module _ {ℓ} {A : Type ℓ} where
  unfoldable pub update_at : ℕ → (A → A) → List A → List A
  update_at i f [] = []
  update_at zero f (x ∷ xs) = f x ∷ xs
  update_at (suc i) f (x ∷ xs) = x ∷ update_at i f xs

  unfoldable pub copies : ℕ → A → List A
  copies zero x = []
  copies (suc n) x = x ∷ copies n x

module _ {ℓ} {V : Type ℓ} where
  unfoldable pub new_manager : ℕ → Manager V
  new_manager max_conn = record {
    client_buckets = copies bucket_count [];
    shared = [];
    max_connections = max_conn;
    conn_semaphore = 0;
    current_connections = 0;
  }

  abbrev pub or_empty : Option (List (Str × WsConnection V)) → List (Str × WsConnection V)
  or_empty none = []
  or_empty (some b) = b

  unfoldable pub get_bucket : Manager V → Str → List (Str × WsConnection V)
  get_bucket m cid = or_empty (get_elem? m.client_buckets (bucket_index cid))

  -- `bucket.clients[cid]`, as `routeEvent`, `Response` and `setSessionData` read it.
  unfoldable pub find_client : Manager V → Str → Option (WsConnection V)
  find_client m cid = lookup cid (get_bucket m cid)

  -- `WsConnection.Close`, whose body runs once.
  unfoldable pub close_connection : WsConnection V → WsConnection V
  close_connection c =
      if c.closed then c else record c { session = close_body c.session; closed = true }

  -- `addClient`: the connection as its goroutines then see it, and the manager.
  unfoldable pub add_client : Manager V → WsConnection V → WsConnection V × Manager V
  add_client m client =
      let cid = client.session.cid in
      let client' = record client { session = set_all_body m.shared client.session } in
      if ltb m.conn_semaphore m.max_connections
      then (
        client',
        record m {
          client_buckets = update_at (bucket_index cid) (insert cid client') m.client_buckets;
          conn_semaphore = m.conn_semaphore + 1;
          current_connections = increment m.current_connections;
        },
      )
      else (close_connection client, m)

  -- `removeClient`: `none` if it waits for a slot of an empty semaphore.
  unfoldable pub remove_client : Manager V → Str → Option (Manager V)
  remove_client m cid =
      let m' = record m {
        client_buckets = update_at (bucket_index cid) (delete cid) m.client_buckets;
        conn_semaphore = m.conn_semaphore - 1;
        current_connections = decrement m.current_connections;
      } in
      elim (find_client m cid) [
        | none ↦ some m
        | some client ↦ if m.conn_semaphore == 0 then none else some m'
      ]

  -- A connection that is closed while it stands in its bucket, as after a failed ping.
  unfoldable pub close_client : Manager V → Str → Manager V
  close_client m cid = elim (find_client m cid) [
    | none ↦ m
    | some client ↦ record m {
      client_buckets =
          update_at (bucket_index cid) (insert cid (close_connection client)) m.client_buckets;
    }
  ]

  -- The deferred function of `writeMessage`, of a connection that stands in its bucket.
  unfoldable pub close_write_chan : Manager V → Str → Manager V
  close_write_chan m cid = elim (find_client m cid) [
    | none ↦ m
    | some client ↦ record m {
      client_buckets =
          update_at (bucket_index cid) (insert cid (record client { write_chan_closed = true }))
            m.client_buckets;
    }
  ]

  unfoldable pub map_clients :
      (WsConnection V → WsConnection V) → List (Str × WsConnection V) → List (Str × WsConnection V)
  map_clients f [] = []
  map_clients f ((cid, c) ∷ rest) = (cid, f c) ∷ map_clients f rest

  -- `setSessionData`: the part for one connection, and the part for all.
  unfoldable pub set_single_data : Manager V → Str → Str → List (Str × V) → Manager V
  set_single_data m cid uid new = elim (find_client m cid) [
    | none ↦ m
    | some client ↦ record m {
      client_buckets =
          update_at (bucket_index cid)
            (insert cid (record client { session = set_data_body uid new client.session }))
            m.client_buckets;
    }
  ]

  unfoldable pub with_all : List (Str × V) → WsConnection V → WsConnection V
  with_all new c = record c { session = set_all_body new c.session }

  -- The loop over `m.data`, under its lock, and the loops over the sessions, each under its own.
  unfoldable pub store_all : Manager V → List (Str × V) → Manager V
  store_all m new = record m { shared = write_all new m.shared }

  unfoldable pub spread_all : Manager V → List (Str × V) → Manager V
  unfolding map_clients
  spread_all m new = record m { client_buckets = map (map_clients (with_all new)) m.client_buckets }

  unfoldable pub set_all_data : Manager V → List (Str × V) → Manager V
  unfolding store_all spread_all
  set_all_data m new = spread_all (store_all m new) new

  -- `Close`: every bucket is emptied; slots and counter stay.
  unfoldable pub close_all : Manager V → Manager V
  close_all m = record m { client_buckets = map (λ b. []) m.client_buckets }

  -- `routeEvent`, with the handlers by package type as a map of their own.
  unfoldable pub route_event {κ} :
      {R : Type κ} → Manager V → Option (WsConnection V → R) → Str → Option R
  route_event m handler cid = elim (find_client m cid) [
    | none ↦ none
    | some conn ↦ elim handler [ none ↦ none | some h ↦ some (h conn) ]
  ]

  -- `setSessionData`, where a missing id is the empty one.
  unfoldable pub set_own_data : Manager V → Str → Str → Option (List (Str × V)) → Manager V
  set_own_data m cid uid none = m
  set_own_data m cid uid (some new) = if length cid == 0 then m else set_single_data m cid uid new

  unfoldable pub set_session_data : Manager V → Str → Str → Option (SessionData V) → Manager V
  set_session_data m cid uid none = m
  set_session_data m cid uid (some d) =
      let m' = set_own_data m cid uid d.single_data in
      if length d.all_data == 0 then m' else set_all_data m' d.all_data
