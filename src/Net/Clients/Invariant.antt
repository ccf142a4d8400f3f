-- ===== src/Net/Clients/Invariant.antt =====
-- The slots, the counter and the buckets agree, whatever connections come and go.
use recreation_test.Base.{
  ◌+◌, ◌-◌, ◌≤◌, ◌≡◌, ◌≢◌, refl, ap, sym, ◌∙◌, true, ltb, if◌then◌else◌, List, length, none, some,
  Str, str_eq, str_eq_iff, insert, delete, lookup-insert, lookup-delete, string_eq, arith,
  Bool-cases, Option-cases, inl, inr, All,
}
use recreation_test.Base.Int.{to_int32}
use recreation_test.Net.Session.{set_all_body, set_data_body}
use recreation_test.Net.Clients.{
  WsConnection, Manager, bucket_index, update_at, get_bucket, find_client, add_client,
  remove_client, close_client, close_write_chan, close_connection, set_single_data, increment,
  decrement,
}
use recreation_test.Net.Clients.Maps.{
  AreDistinct, AreDistinct-insert, AreDistinct-delete, length-insert, length-insert_old,
  length-delete, length-update_at, All-update_at, All-member, total, total-update_at, bucket_there,
  lookup-update,
}

module _ {ℓ} {V : Type ℓ} where
  -- There are 32 buckets without repeated ids; the slots that are taken and the counter, an `int32`, are the
  -- number of connections in them, which is at most the maximum.
  pub record IsWellFormed (m : Manager V) : Type ℓ where
    pub width : length m.client_buckets ≡ 32
    pub distinct : All AreDistinct m.client_buckets
    pub slots : m.conn_semaphore ≡ total m.client_buckets
    pub counter : m.current_connections ≡ to_int32 (total m.client_buckets)
    pub bounded : m.conn_semaphore ≤ m.max_connections

  -- The connection as `addClient` stores it.
  abbrev pub welcomed : Manager V → WsConnection V → WsConnection V
  welcomed m client = record client { session = set_all_body m.shared client.session }

  module _ (m : Manager V) (w : IsWellFormed m) where
    total-insert :
        (cid : Str) (c : WsConnection V)
        → find_client m cid ≡ none
        → total (update_at (bucket_index cid) (insert cid c) m.client_buckets)
          ≡ total m.client_buckets + 1
    unfolding find_client
    total-insert cid c fresh = omega (
      arith,
      total-update_at (bucket_index cid) (insert cid c) m.client_buckets (get_bucket m cid)
          (bucket_there m w.width cid),
      length-insert cid c (get_bucket m cid) fresh,
    )

    total-insert_old :
        (cid : Str) (c d : WsConnection V)
        → find_client m cid ≡ some d
        → total (update_at (bucket_index cid) (insert cid c) m.client_buckets)
          ≡ total m.client_buckets
    unfolding find_client
    total-insert_old cid c d old = omega (
      arith,
      total-update_at (bucket_index cid) (insert cid c) m.client_buckets (get_bucket m cid)
          (bucket_there m w.width cid),
      length-insert_old cid c d (get_bucket m cid) old,
    )

    total-delete :
        (cid : Str) (c : WsConnection V)
        → find_client m cid ≡ some c
        → total (update_at (bucket_index cid) (delete cid) m.client_buckets) + 1
          ≡ total m.client_buckets
    unfolding find_client
    total-delete cid c old = omega (
      arith,
      total-update_at (bucket_index cid) (delete cid) m.client_buckets (get_bucket m cid)
          (bucket_there m w.width cid),
      length-delete cid c (get_bucket m cid)
          (All-member AreDistinct (bucket_index cid) m.client_buckets (get_bucket m cid)
            (bucket_there m w.width cid) w.distinct)
          old,
    )

    -- The entry of a known id is replaced.
    pub replace-IsWellFormed :
        (cid : Str) (c d : WsConnection V)
        → find_client m cid ≡ some d
        → IsWellFormed (record m {
          client_buckets = update_at (bucket_index cid) (insert cid c) m.client_buckets;
        })
    replace-IsWellFormed cid c d old = record {
      width = length-update_at (bucket_index cid) (insert cid c) m.client_buckets ∙ w.width;
      distinct =
          All-update_at AreDistinct (bucket_index cid) (insert cid c) m.client_buckets
            (λ b. AreDistinct-insert cid c b) w.distinct;
      slots = w.slots ∙ sym (total-insert_old cid c d old);
      counter = w.counter ∙ ap to_int32 (sym (total-insert_old cid c d old));
      bounded = w.bounded;
    }

    pub add_client-IsWellFormed :
        (client : WsConnection V)
        → find_client m client.session.cid ≡ none
        → IsWellFormed (add_client m client).1
    unfolding add_client increment
    add_client-IsWellFormed client fresh =
        let cid = client.session.cid in
        let c = welcomed m client in
        let more = total-insert cid c fresh in
        elim (Bool-cases (ltb m.conn_semaphore m.max_connections)) [
          | inr full ↦ rw full w
          | inl room ↦ rw room (record {
            width = length-update_at (bucket_index cid) (insert cid c) m.client_buckets ∙ w.width;
            distinct =
                All-update_at AreDistinct (bucket_index cid) (insert cid c) m.client_buckets
                  (λ b. AreDistinct-insert cid c b) w.distinct;
            slots = omega (arith, more, w.slots);
            counter = omega (arith, more, w.counter);
            bounded = ground arith;
          })
        ]

    pub close_client-IsWellFormed : (cid : Str) → IsWellFormed (close_client m cid)
    unfolding close_client
    close_client-IsWellFormed cid = elim (Option-cases (find_client m cid)) [
      | inl unknown ↦ rw (unknown, close_client) w
      | inr (c, old) ↦ rw (old, close_client) (replace-IsWellFormed cid (close_connection c) c old)
    ]

    pub close_write_chan-IsWellFormed : (cid : Str) → IsWellFormed (close_write_chan m cid)
    unfolding close_write_chan
    close_write_chan-IsWellFormed cid = elim (Option-cases (find_client m cid)) [
      | inl unknown ↦ rw (unknown, close_write_chan) w
      | inr (c, old) ↦
          rw (old, close_write_chan)
            (replace-IsWellFormed cid (record c { write_chan_closed = true }) c old)
    ]

    pub set_single_data-IsWellFormed :
        (cid uid : Str) (new : List (Str × V)) → IsWellFormed (set_single_data m cid uid new)
    unfolding set_single_data
    set_single_data-IsWellFormed cid uid new = elim (Option-cases (find_client m cid)) [
      | inl unknown ↦ rw (unknown, set_single_data) w
      | inr (c, old) ↦
          rw (old, set_single_data)
            (replace-IsWellFormed cid (record c { session = set_data_body uid new c.session }) c
              old)
    ]

  -- What the removal of one of the connections leaves.
  abbrev pub removed : Manager V → Str → Manager V
  removed m cid = record m {
    client_buckets = update_at (bucket_index cid) (delete cid) m.client_buckets;
    conn_semaphore = m.conn_semaphore - 1;
    current_connections = decrement m.current_connections;
  }

  module _ (m : Manager V) (w : IsWellFormed m) (cid : Str) where
    removed-IsWellFormed :
        (c : WsConnection V) → find_client m cid ≡ some c → IsWellFormed (removed m cid)
    unfolding decrement
    removed-IsWellFormed c old =
        let fewer = total-delete m w cid c old in
        record {
          width = length-update_at (bucket_index cid) (delete cid) m.client_buckets ∙ w.width;
          distinct =
              All-update_at AreDistinct (bucket_index cid) (delete cid) m.client_buckets
                (λ b. AreDistinct-delete cid b) w.distinct;
          slots = omega (arith, fewer, w.slots);
          counter = omega (arith, fewer, w.counter);
          bounded = omega (arith, w.bounded);
        }

    find_client-slots :
        (j : Str)
        → find_client (removed m cid) j
          ≡ find_client
              (record m {
                client_buckets = update_at (bucket_index cid) (delete cid) m.client_buckets;
              })
              j
    unfolding find_client get_bucket
    find_client-slots j = refl

    find_client-removed :
        (j : Str) → find_client (removed m cid) j ≡ (if str_eq cid j then none else find_client m j)
    find_client-removed j =
        find_client-slots j
        ∙ lookup-update m w.width cid j (delete cid) none (λ b. lookup-delete cid j b)

  -- `removeClient` never waits for a slot: it always returns, it keeps the invariant and the shared data, and after it the
  -- id is unknown while every other id has the connection that it had.
  pub remove_client-returns :
      (m : Manager V) (cid : Str)
      → IsWellFormed m
      → (m' : Manager V) × (remove_client m cid ≡ some m')
        × IsWellFormed m'
        × (m'.shared ≡ m.shared)
        × ((j : Str) → find_client m' j ≡ (if str_eq cid j then none else find_client m j))
  unfolding remove_client
  remove_client-returns m cid w = elim (Option-cases (find_client m cid)) [
    | inl unknown ↦ (
      m,
      rw (unknown, remove_client) refl,
      w,
      refl,
      λ j. ground (arith, str_eq_iff cid j, unknown),
    )
    | inr (c, old) ↦ (
      removed m cid,
      rw (old, remove_client) (ground (arith, total-delete m w cid c old, w.slots)),
      removed-IsWellFormed m w cid c old,
      refl,
      find_client-removed m w cid,
    )
  ]

  module _ (m : Manager V) (client : WsConnection V) (w : IsWellFormed m) where
    add_client-full :
        total m.client_buckets ≡ m.max_connections
        → add_client m client ≡ (close_connection client, m)
    unfolding add_client
    add_client-full full = ground (arith, w.slots)

    module _ (room : total m.client_buckets ≢ m.max_connections) where
      has_room : ltb m.conn_semaphore m.max_connections ≡ true
      has_room = ground (arith, w.slots, w.bounded)

      add_client-room : (add_client m client).0 ≡ welcomed m client
      unfolding add_client
      add_client-room = ground (arith, has_room)

      add_client-buckets :
          (j : Str)
          → find_client (add_client m client).1 j
            ≡ find_client
                (record m {
                  client_buckets =
                      update_at
                        (bucket_index client.session.cid)
                        (insert client.session.cid (welcomed m client))
                        m.client_buckets;
                })
                j
      unfolding add_client find_client get_bucket
      add_client-buckets j = rw has_room refl

      add_client-found :
          (j : Str)
          → find_client (add_client m client).1 j
            ≡ (if str_eq client.session.cid j then some (welcomed m client) else find_client m j)
      add_client-found j =
          let cid = client.session.cid in
          add_client-buckets j
          ∙ lookup-update m w.width cid j (insert cid (welcomed m client))
              (some (welcomed m client)) (λ b. lookup-insert cid j (welcomed m client) b)

  -- A connection is refused, and then closed, exactly if the maximum is reached; then the manager stays
  -- as it is. Otherwise its id leads to it, with the shared data in its session, and every other id has
  -- the connection that it had.
  pub add_client_cases :
      (m : Manager V) (client : WsConnection V)
      → IsWellFormed m
      → (total m.client_buckets ≡ m.max_connections
          → add_client m client ≡ (close_connection client, m))
        × (total m.client_buckets ≢ m.max_connections
            → ((add_client m client).0 ≡ welcomed m client)
              × ((j : Str)
                  → find_client (add_client m client).1 j ≡ (
                      if str_eq client.session.cid j
                      then some (welcomed m client)
                      else find_client m j)))
  add_client_cases m client w = (
    add_client-full m client w,
    λ room. (add_client-room m client w room, add_client-found m client w room),
  )
