-- ===== src/Net/Selection/Destination.antt =====
-- `selectDst`: which results it can have, and the invariant of the balancing state.
use recreation_test.Base.{
  ℕ, ◌+◌, ◌%◌, ◌<◌, ◌≡◌, refl, ap, inl, inr, ◌==◌, List, [], ◌∷◌, length, Option, none, some, Str,
  str_eq, str_eq_iff, lookup, lookup-insert, string_eq, Outcome, ok, err, arith, Bool-cases,
  Option-cases, if_both,
}
use native.Mathlib.Nat.{mod-lt}
use recreation_test.Game.Config.{Config, ServersConfig, ServersConf, on_config_change}
use recreation_test.Net.Context.{Context, get_current_user_id, get_current_client_ip}
use recreation_test.Net.Strategy.{
  Strategy, random, round_robin, weighted_round_robin, least_connection, consistent_hash, ip_hash,
  other,
}
use recreation_test.Net.Ring.{ConsistentHash, build_ring, ring_server}
use recreation_test.Net.Ring.Members.{ring_server-IsServer}
use recreation_test.Net.Selection.{
  LoadBalanceState, SelectError, no_server_found, no_available_servers, select_round_robin_server,
  ensure_ring, select_consistent_hash_server, select_ip_hash_server, select_by_strategy, select_dst,
  select_random_server,
}
use recreation_test.Net.Selection.Picks.{
  IsPick, id_at-IsPick, select_random_server-IsPick, weighted-random,
}
use recreation_test.Net.Selection.Loads.{select_least_connection_server-IsServer}
use recreation_test.Net.Selection.RoundRobin.{next_index, pick-select}

-- Each stored position is one of the type's servers, and each stored ring was built for them.
pub record IsWellFormed (conf : Config) (s : LoadBalanceState) : Type 0 where
  pub turn :
      (t : Str) (servers : List ServersConfig)
      → lookup t conf.servers_conf.type_server ≡ some servers
      → 0 < length servers
      → next_index s t < length servers
  pub ring :
      (t : Str) (servers : List ServersConfig) (r : ConsistentHash)
      → lookup t conf.servers_conf.type_server ≡ some servers
      → lookup t s.hash_ring ≡ some r
      → r ≡ build_ring servers

module _ (conf : Config) (s : LoadBalanceState) (w : IsWellFormed conf s) (t : Str)
    (servers : List ServersConfig) (known : lookup t conf.servers_conf.type_server ≡ some servers)
    (some_server : 0 < length servers) where
  select_round_robin_server-IsWellFormed :
      IsWellFormed conf (select_round_robin_server s t servers).1
  unfolding select_round_robin_server
  select_round_robin_server-IsWellFormed = record {
    turn = λ u others known' h. elim (Bool-cases (str_eq t u)) [
      | inl same ↦
          let e : t ≡ u = (str_eq_iff t u).0 same in
          let agree : servers ≡ others = ground arith in
          ground (
            arith,
            lookup-insert t u ((next_index s t + 1) % length servers) s.round_robin_idx,
            mod-lt (next_index s t + 1) some_server,
          )
      | inr different ↦ ground (
        arith,
        lookup-insert t u ((next_index s t + 1) % length servers) s.round_robin_idx,
        w.turn u others known' h,
      )
    ];
    ring = w.ring;
  }

  ensure_ring-IsWellFormed : IsWellFormed conf (ensure_ring s t servers)
  unfolding ensure_ring
  ensure_ring-IsWellFormed = elim (Option-cases (lookup t s.hash_ring)) [
    | inr (r, old) ↦ rw (old, ensure_ring) w
    | inl new ↦
        rw (new, ensure_ring)
          (record {
            turn = w.turn;
            ring = λ u others r known' e. ground (
              arith,
              lookup-insert t u (build_ring servers) s.hash_ring,
              str_eq_iff t u,
              w.ring u others r known',
            );
          })
  ]

  ensure_ring-lookup : lookup t (ensure_ring s t servers).hash_ring ≡ some (build_ring servers)
  unfolding ensure_ring
  ensure_ring-lookup = elim (Option-cases (lookup t s.hash_ring)) [
    | inr (r, old) ↦ rw (old, ensure_ring) (ground (arith, w.ring t servers r known old))
    | inl new ↦
        rw (new, ensure_ring)
          (ground (arith, lookup-insert t t (build_ring servers) s.hash_ring, str_eq_iff t t))
  ]

  module _ (intn : ℕ → ℕ) (fair : (n : ℕ) → 0 < n → intn n < n) where
    select_consistent_hash_server-IsPick :
        (key : Str) → IsPick servers (select_consistent_hash_server intn s t key servers).0
    unfolding select_consistent_hash_server
    select_consistent_hash_server-IsPick key =
        rw (ensure_ring-lookup, select_consistent_hash_server)
          (if_both (IsPick servers) (length (build_ring servers).hash_ring == 0)
            (select_random_server intn servers) (ok (ring_server (build_ring servers) key))
            (select_random_server-IsPick intn fair servers some_server)
            (ring_server-IsServer servers key some_server))

    select_by_strategy-IsPick :
        (ctx : Option Context) (v : Strategy)
        → s.strategy ≡ v
        → IsPick servers (select_by_strategy intn ctx s t servers).0
    unfolding select_by_strategy
    select_by_strategy-IsPick ctx random e =
        rw (e, select_by_strategy) (select_random_server-IsPick intn fair servers some_server)
    select_by_strategy-IsPick ctx round_robin e =
        rw (e, select_by_strategy)
          (rw (pick-select s t servers)
            (id_at-IsPick servers (next_index s t) (w.turn t servers known some_server)))
    select_by_strategy-IsPick ctx weighted_round_robin e =
        rw (e, select_by_strategy)
          (rw (weighted-random intn fair servers some_server)
            (select_random_server-IsPick intn fair servers some_server))
    select_by_strategy-IsPick ctx least_connection e =
        rw (e, select_by_strategy) (select_least_connection_server-IsServer s servers some_server)
    select_by_strategy-IsPick ctx consistent_hash e =
        rw (e, select_by_strategy)
          (if_both (λ (r : Outcome SelectError Str × LoadBalanceState). IsPick servers r.0)
            (length (get_current_user_id ctx) == 0) (select_random_server intn servers, s)
            (select_consistent_hash_server intn s t (get_current_user_id ctx) servers)
            (select_random_server-IsPick intn fair servers some_server)
            (select_consistent_hash_server-IsPick (get_current_user_id ctx)))
    select_by_strategy-IsPick ctx ip_hash e =
        rw (e, select_by_strategy)
          (if_both (λ (r : Outcome SelectError Str × LoadBalanceState). IsPick servers r.0)
            (length (get_current_client_ip ctx) == 0) (select_random_server intn servers, s)
            (select_ip_hash_server intn s t (get_current_client_ip ctx) servers)
            (select_random_server-IsPick intn fair servers some_server)
            (unfold select_ip_hash_server in
              select_consistent_hash_server-IsPick (get_current_client_ip ctx)))
    select_by_strategy-IsPick ctx (other n) e =
        rw (e, select_by_strategy) (select_random_server-IsPick intn fair servers some_server)

  select_by_strategy-IsWellFormed :
      (intn : ℕ → ℕ) (ctx : Option Context) (v : Strategy)
      → s.strategy ≡ v
      → IsWellFormed conf (select_by_strategy intn ctx s t servers).1
  unfolding select_by_strategy
  select_by_strategy-IsWellFormed intn ctx random e = rw (e, select_by_strategy) w
  select_by_strategy-IsWellFormed intn ctx round_robin e =
      rw (e, select_by_strategy) select_round_robin_server-IsWellFormed
  select_by_strategy-IsWellFormed intn ctx weighted_round_robin e = rw (e, select_by_strategy) w
  select_by_strategy-IsWellFormed intn ctx least_connection e = rw (e, select_by_strategy) w
  select_by_strategy-IsWellFormed intn ctx consistent_hash e =
      rw (e, select_by_strategy)
        (if_both (λ (r : Outcome SelectError Str × LoadBalanceState). IsWellFormed conf r.1)
          (length (get_current_user_id ctx) == 0) (select_random_server intn servers, s)
          (select_consistent_hash_server intn s t (get_current_user_id ctx) servers) w
          (unfold select_consistent_hash_server in ensure_ring-IsWellFormed))
  select_by_strategy-IsWellFormed intn ctx ip_hash e =
      rw (e, select_by_strategy)
        (if_both (λ (r : Outcome SelectError Str × LoadBalanceState). IsWellFormed conf r.1)
          (length (get_current_client_ip ctx) == 0) (select_random_server intn servers, s)
          (select_ip_hash_server intn s t (get_current_client_ip ctx) servers) w
          (unfold select_ip_hash_server select_consistent_hash_server in ensure_ring-IsWellFormed))
  select_by_strategy-IsWellFormed intn ctx (other n) e = rw (e, select_by_strategy) w

-- What a call of `selectDst` may answer, by what the configuration has for the type.
abbrev pub Answers : Option (List ServersConfig) → Outcome SelectError Str → Type 0
Answers none r = r ≡ err no_server_found
Answers (some []) r = r ≡ err no_available_servers
Answers (some (server ∷ rest)) r = IsPick (server ∷ rest) r

module _ (intn : ℕ → ℕ) (ctx : Option Context) (conf : Config) (s : LoadBalanceState)
    (w : IsWellFormed conf s) (t : Str) where
  select_dst-known :
      (fair : (n : ℕ) → 0 < n → intn n < n) (found : Option (List ServersConfig))
      → lookup t conf.servers_conf.type_server ≡ found
      → Answers found (select_dst intn ctx conf s t).0
        × IsWellFormed conf (select_dst intn ctx conf s t).1
  unfolding select_dst
  select_dst-known fair none e = rw (e, select_dst) (refl, w)
  select_dst-known fair (some []) e = rw (e, select_dst) (refl, w)
  select_dst-known fair (some (server ∷ [])) e = rw (e, select_dst) (inl refl, w)
  select_dst-known fair (some (server ∷ (second ∷ rest))) e =
      rw (e, select_dst)
        (
          select_by_strategy-IsPick conf s w t (server ∷ second ∷ rest) e (omega arith) intn fair
              ctx s.strategy refl,
          select_by_strategy-IsWellFormed conf s w t (server ∷ second ∷ rest) e (omega arith) intn
              ctx s.strategy refl,
        )

-- On every strategy, and with or without a request context, a call answers with an error exactly for a
-- type that is missing or has no servers, and otherwise with the id of one of the type's servers; it
-- never crashes, and it keeps the state well formed for the next call.
pub select_dst-Answers :
    (intn : ℕ → ℕ) (ctx : Option Context) (conf : Config) (s : LoadBalanceState) (t : Str)
    → ((n : ℕ) → 0 < n → intn n < n)
    → IsWellFormed conf s
    → Answers (lookup t conf.servers_conf.type_server) (select_dst intn ctx conf s t).0
      × IsWellFormed conf (select_dst intn ctx conf s t).1
select_dst-Answers intn ctx conf s t fair w =
    select_dst-known intn ctx conf s w t fair (lookup t conf.servers_conf.type_server) refl

-- Once the configuration file has changed at run time, no server of any type is found again.
pub select_dst-on_config_change :
    (intn : ℕ → ℕ) (ctx : Option Context) (conf : Config) (read : ServersConf)
    (s : LoadBalanceState) (t : Str)
    → read.type_server ≡ []
    → select_dst intn ctx (on_config_change conf read) s t ≡ (err no_server_found, s)
unfolding select_dst on_config_change lookup
select_dst-on_config_change intn ctx conf read s t e =
    let missing : lookup t read.type_server ≡ none = ap (lookup t) e in rw (missing, select_dst)
