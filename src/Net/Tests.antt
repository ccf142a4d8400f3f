-- ===== src/Net/Tests.antt =====
-- The hash, the strategies and the selection at concrete inputs.
use recreation_test.Base.{
  ℕ, ◌≤◌, ◌≡◌, refl, List, [], ◌∷◌, none, some, Str, bytes, lookup, nat_eq, string_eq, arith, ok,
}
use recreation_test.Base.Int.{pos}
use recreation_test.Game.Config.{Config, ServersConfig}
use recreation_test.Net.Strategy.{random, round_robin, to_lower, parse_load_balance_strategy}
use recreation_test.Net.Ring.{ConsistentHash}
use recreation_test.Net.Selection.{LoadBalanceState, select_dst}
use recreation_test.Net.Selection.RoundRobin.{next_index}
use recreation_test.Net.Selection.Destination.{IsWellFormed, Answers, select_dst-Answers}

abbrev server : Str → ServersConfig
server id = record {
  id = id;
  server_type = bytes "hall";
  handle_time_out = 1;
  rpc_time_out = 1;
  max_run_routine_num = 1;
}

abbrev two : List ServersConfig
two = server (bytes "hall-1") ∷ server (bytes "hall-2") ∷ []

abbrev loaded : Config
loaded = record {
  game_config = [];
  servers_conf = record {
    nats_url = [];
    connector = [];
    servers = two;
    type_server = (bytes "hall", two) ∷ [];
  };
}

abbrev fresh : LoadBalanceState
fresh = record { strategy = round_robin; round_robin_idx = []; hash_ring = []; server_loads = [] }

abbrev reported : LoadBalanceState
reported = record {
  strategy = round_robin;
  round_robin_idx = [];
  hash_ring = [];
  server_loads = (bytes "hall-1", pos 7) ∷ (bytes "hall-2", pos 4) ∷ [];
}

abbrev first : ℕ → ℕ
first n = 0

random_upper : to_lower (bytes "RANDOM") ≡ to_lower (bytes "Random")
unfolding to_lower
random_upper = refl

random_parsed : parse_load_balance_strategy (bytes "random") ≡ ok random
unfolding parse_load_balance_strategy to_lower
random_parsed = refl

abbrev old_ring : ConsistentHash
old_ring = record { hash_ring = 10 ∷ []; mapping = (10, bytes "hall-0") ∷ [] }

abbrev stale : LoadBalanceState
stale = record {
  strategy = round_robin;
  round_robin_idx = [];
  hash_ring = (bytes "hall", old_ring) ∷ [];
  server_loads = [];
}

stale_ring : lookup (bytes "hall") stale.hash_ring ≡ some old_ring
unfolding lookup
stale_ring = refl

fresh_index : next_index fresh (bytes "hall") ≡ 0
unfolding lookup
fresh_index = refl

abbrev shrunk : LoadBalanceState
shrunk = record {
  strategy = round_robin;
  round_robin_idx = (bytes "hall", 2) ∷ [];
  hash_ring = [];
  server_loads = [];
}

shrunk_index : 2 ≤ next_index shrunk (bytes "hall")
unfolding lookup
shrunk_index = omega arith

load_1 : lookup (bytes "hall-1") reported.server_loads ≡ some (pos 7)
unfolding lookup
load_1 = refl

load_2 : lookup (bytes "hall-2") reported.server_loads ≡ some (pos 4)
unfolding lookup
load_2 = refl

no_load : lookup (bytes "hall-3") reported.server_loads ≡ none
unfolding lookup
no_load = refl

fresh-IsWellFormed : IsWellFormed loaded fresh
unfolding lookup
fresh-IsWellFormed = record { turn = λ t servers e h. h; ring = λ t servers r e f. absurd (cc) }

select_dst-Answers_example :
    Answers
      (lookup (bytes "hall") loaded.servers_conf.type_server)
      (select_dst first none loaded fresh (bytes "hall")).0
    × IsWellFormed loaded (select_dst first none loaded fresh (bytes "hall")).1
select_dst-Answers_example =
    select_dst-Answers first none loaded fresh (bytes "hall") (λ n h. h) fresh-IsWellFormed
