-- ===== src/Net/Selection.antt =====
-- framework/net/load_balance_strategy.go: the balancing state of a `Manager`, and `selectDst` with the
-- strategies. The mutex makes each operation one step. `intn` is `rand.Intn` of a fresh generator.
pub mod Picks
pub mod RoundRobin
pub mod Loads
pub mod Destination
use recreation_test.Base.{
  ℕ, ◌+◌, ◌%◌, Bool, true, false, ◌||◌, ltb, ◌==◌, if◌then◌else◌, List, [], ◌∷◌, length, get_elem?,
  Option, none, some, Str, lookup, insert, string_eq, Outcome, ok, err, panic, ◌>>=◌, or_panic,
}
use recreation_test.Base.Int.{ℤ, pos, negsuc, ltb_ℤ, eq_ℤ}
use recreation_test.Game.Config.{Config, ServersConfig}
use recreation_test.Net.Context.{Context, get_current_user_id, get_current_client_ip}
use recreation_test.Net.Strategy.{
  Strategy, random, round_robin, weighted_round_robin, least_connection, consistent_hash, ip_hash,
  other, string, parse_load_balance_strategy,
}
use recreation_test.Net.Ring.{ConsistentHash, build_ring, ring_server}

pub record LoadBalanceState : Type 0 where
  pub strategy : Strategy
  pub round_robin_idx : List (Str × ℕ)
  pub hash_ring : List (Str × ConsistentHash)
  pub server_loads : List (Str × ℤ)

pub data SelectError : Type 0 where
  no_server_found no_available_servers : SelectError

-- `servers[index].ID`.
unfoldable pub id_at : List ServersConfig → ℕ → Outcome SelectError Str
id_at servers index = do server ← or_panic (get_elem? servers index); ok server.id

unfoldable pub select_round_robin_server :
    LoadBalanceState → Str → List ServersConfig → Outcome SelectError Str × LoadBalanceState
select_round_robin_server s server_type servers =
    let index = elim (lookup server_type s.round_robin_idx) as (λ o. ℕ) [ none ↦ 0 | some i ↦ i ] in
    (
      id_at servers index,
      record s {
        round_robin_idx = insert server_type ((index + 1) % length servers) s.round_robin_idx;
      },
    )

unfoldable pub weighted_loop : ℕ → ℕ → List ServersConfig → Option Str
weighted_loop random_weight current_weight [] = none
weighted_loop random_weight current_weight (server ∷ rest) =
    let current = current_weight + 1 in
    let more = weighted_loop random_weight current rest in
    if ltb random_weight current then some server.id else more

-- The load of a server, where a missing one is 0.
abbrev pub load_of : Option ℤ → ℤ
load_of none = pos 0
load_of (some l) = l

abbrev is_missing : Option ℤ → Bool
is_missing none = true
is_missing (some l) = false

-- `minLoad` is -1 until a server is taken; so it is again after a server with that load.
unfoldable pub least_loop : List (Str × ℤ) → ℤ → Str → List ServersConfig → Str
least_loop loads min_load selected [] = selected
least_loop loads min_load selected (server ∷ rest) =
    let found = lookup server.id loads in
    let load = load_of found in
    let taken = least_loop loads load server.id rest in
    let skipped = least_loop loads min_load selected rest in
    if is_missing found || (eq_ℤ min_load (negsuc 0) || ltb_ℤ load min_load) then taken else skipped

unfoldable pub select_least_connection_server : LoadBalanceState → List ServersConfig → Str
select_least_connection_server s servers = least_loop s.server_loads (negsuc 0) [] servers

-- `initConsistentHash` stores a ring only if the type has none.
unfoldable pub ensure_ring : LoadBalanceState → Str → List ServersConfig → LoadBalanceState
ensure_ring s server_type servers = elim (lookup server_type s.hash_ring) [
  | some ring ↦ s
  | none ↦ record s { hash_ring = insert server_type (build_ring servers) s.hash_ring }
]

module _ (intn : ℕ → ℕ) where
  unfoldable pub select_random_server : List ServersConfig → Outcome SelectError Str
  select_random_server servers = id_at servers (intn (length servers))

  unfoldable pub select_weighted_round_robin_server : List ServersConfig → Outcome SelectError Str
  select_weighted_round_robin_server servers =
      elim (weighted_loop (intn (length servers)) 0 servers) [
        | some id ↦ ok id
        | none ↦ id_at servers 0
      ]

  on_ring : List ServersConfig → Str → ConsistentHash → Outcome SelectError Str
  on_ring servers key ring =
      if length ring.hash_ring == 0 then select_random_server servers else ok (ring_server ring key)

  unfoldable pub select_consistent_hash_server :
      LoadBalanceState → Str → Str → List ServersConfig → Outcome SelectError Str × LoadBalanceState
  unfolding on_ring
  select_consistent_hash_server s server_type key servers =
      let s' = ensure_ring s server_type servers in
      (
        elim (lookup server_type s'.hash_ring) [
          | none ↦ select_random_server servers
          | some ring ↦ on_ring servers key ring
        ],
        s',
      )

  unfoldable pub select_ip_hash_server :
      LoadBalanceState → Str → Str → List ServersConfig → Outcome SelectError Str × LoadBalanceState
  select_ip_hash_server s server_type ip servers =
      select_consistent_hash_server s server_type ip servers

  -- The switch of `selectDst`, for two servers or more.
  unfoldable pub select_by_strategy :
      Option Context
      → LoadBalanceState
      → Str
      → List ServersConfig
      → Outcome SelectError Str × LoadBalanceState
  select_by_strategy ctx s server_type servers = elim s.strategy [
    | random ↦ (select_random_server servers, s)
    | round_robin ↦ select_round_robin_server s server_type servers
    | weighted_round_robin ↦ (select_weighted_round_robin_server servers, s)
    | least_connection ↦ (ok (select_least_connection_server s servers), s)
    | consistent_hash ↦
        let uid = get_current_user_id ctx in
        if length uid == 0
        then (select_random_server servers, s)
        else select_consistent_hash_server s server_type uid servers
    | ip_hash ↦
        let client_ip = get_current_client_ip ctx in
        if length client_ip == 0
        then (select_random_server servers, s)
        else select_ip_hash_server s server_type client_ip servers
    | other n ↦ (select_random_server servers, s)
  ]

  unfoldable pub select_dst :
      Option Context → Config → LoadBalanceState → Str → Outcome SelectError Str × LoadBalanceState
  select_dst ctx conf s server_type = elim (lookup server_type conf.servers_conf.type_server) [
    | none ↦ (err no_server_found, s)
    | some [] ↦ (err no_available_servers, s)
    | some (server ∷ []) ↦ (ok server.id, s)
    | some (server ∷ (second ∷ rest)) ↦
        select_by_strategy ctx s server_type (server ∷ second ∷ rest)
  ]

unfoldable pub set_load_balance_strategy : LoadBalanceState → Strategy → LoadBalanceState
set_load_balance_strategy s strategy = record s { strategy = strategy }

unfoldable pub set_load_balance_strategy_by_name :
    LoadBalanceState → Str → Outcome Str (Unit {0}) × LoadBalanceState
set_load_balance_strategy_by_name s name = elim (parse_load_balance_strategy name) [
  | ok strategy ↦ (ok tt, set_load_balance_strategy s strategy)
  | err e ↦ (err e, s)
  | panic ↦ (panic, s)
]

unfoldable pub get_current_load_balance_strategy_name : LoadBalanceState → Str
get_current_load_balance_strategy_name s = string s.strategy

unfoldable pub update_server_load : LoadBalanceState → Str → ℤ → LoadBalanceState
update_server_load s server_id load = record s {
  server_loads = insert server_id load s.server_loads;
}
