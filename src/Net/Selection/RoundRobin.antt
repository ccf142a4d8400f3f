-- ===== src/Net/Selection/RoundRobin.antt =====
-- Round robin visits the servers in turn.
use recreation_test.Base.{
  ℕ, zero, suc, ◌+◌, ◌%◌, ◌≤◌, ◌<◌, ◌≡◌, refl, ◌∙◌, ap, List, [], ◌∷◌, ◌++◌, map, length,
  length-append, get_elem?-length-append, get_elem?-none, none, some, Str, str_eq_refl, lookup,
  lookup-insert, string_eq, Outcome, ok, panic, arith,
}
use mathlib.Core.Path.{ap₂}
use mathlib.Core.List.{append_assoc}
use native.Mathlib.Nat.{mod-add-mod, mod-eq_of_lt, add-mod_right}
use recreation_test.Game.Config.{ServersConfig}
use recreation_test.Net.Selection.{LoadBalanceState, SelectError, id_at, select_round_robin_server}

-- The next position of a server type.
abbrev pub next_index : LoadBalanceState → Str → ℕ
next_index s server_type = elim (lookup server_type s.round_robin_idx) as (λ o. ℕ) [
  | none ↦ 0
  | some i ↦ i
]

-- `n` selections one after the other, with their results in order.
unfoldable pub select_many :
    ℕ
    → LoadBalanceState
    → Str
    → List ServersConfig
    → List (Outcome SelectError Str) × LoadBalanceState
select_many zero s server_type servers = ([], s)
select_many (suc n) s server_type servers =
    let (id, s') = select_round_robin_server s server_type servers in
    let (ids, last) = select_many n s' server_type servers in (id ∷ ids, last)

-- What is expected: positions from `i` on, wrapped round.
unfoldable pub turns : ℕ → ℕ → List ServersConfig → List (Outcome SelectError Str)
turns zero i servers = []
turns (suc n) i servers = id_at servers (i % length servers) ∷ turns n (i + 1) servers

pub next_index-select :
    (s : LoadBalanceState) (server_type : Str) (servers : List ServersConfig)
    → next_index (select_round_robin_server s server_type servers).1 server_type
      ≡ (next_index s server_type + 1) % length servers
unfolding select_round_robin_server
next_index-select s server_type servers = ground (
  arith,
  lookup-insert server_type server_type ((next_index s server_type + 1) % length servers)
      s.round_robin_idx,
  str_eq_refl server_type,
)

pub pick-select :
    (s : LoadBalanceState) (server_type : Str) (servers : List ServersConfig)
    → (select_round_robin_server s server_type servers).0 ≡ id_at servers (next_index s server_type)
unfolding select_round_robin_server
pick-select s server_type servers = refl

next_turn : (i n : ℕ) → 0 < n → (i % n + 1) % n ≡ (i + 1) % n
next_turn i n h = mod-add-mod i n 1

-- While the list of servers has the same length, `n` selections give the servers at `n` positions in
-- turn from the stored one on, and leave the position behind them stored.
pub select_many-turns :
    (n : ℕ) (s : LoadBalanceState) (server_type : Str) (servers : List ServersConfig) (i : ℕ)
    → next_index s server_type ≡ i % length servers
    → 0 < length servers
    → ((select_many n s server_type servers).0 ≡ turns n i servers)
      × (next_index (select_many n s server_type servers).1 server_type ≡ (i + n) % length servers)
unfolding select_many turns
select_many-turns zero s server_type servers i e h =
    (refl, e ∙ ap (λ (t : ℕ). t % length servers) (omega arith))
select_many-turns (suc n) s server_type servers i e h =
    let s' = (select_round_robin_server s server_type servers).1 in
    let e' : next_index s' server_type ≡ (i + 1) % length servers =
      next_index-select s server_type servers
      ∙ ap (λ (t : ℕ). (t + 1) % length servers) e
      ∙ next_turn i (length servers) h in
    let (ids, last) = select_many-turns n s' server_type servers (i + 1) e' h in
    (
      ap₂ ◌∷◌ (pick-select s server_type servers ∙ ap (id_at servers) e) ids,
      last ∙ ap (λ (t : ℕ). t % length servers) (omega arith),
    )

turn_here :
    (before : List ServersConfig) (server : ServersConfig) (after : List ServersConfig)
    → id_at (before ++ (server ∷ after)) (length before % length (before ++ (server ∷ after)))
      ≡ ok server.id
unfolding id_at
turn_here before server after =
    let inside : length before < length (before ++ (server ∷ after)) =
      omega (arith, length-append before (server ∷ after)) in
    rw (mod-eq_of_lt inside, get_elem?-length-append before server after)

turns_low :
    (before after : List ServersConfig)
    → turns (length after) (length before) (before ++ after) ≡ map (λ server. ok server.id) after
unfolding turns
turns_low before [] = refl
turns_low before (server ∷ after) =
    let grown : length (before ++ (server ∷ [])) ≡ length before + 1 =
      omega (arith, length-append before (server ∷ [])) in
    let rest = turns_low (before ++ (server ∷ [])) after in
    ap₂ ◌∷◌ (turn_here before server after)
      (rw (grown, append_assoc before (server ∷ []) after) at rest)

-- A full round from the first position on gives every server once, in the order of the list, and
-- comes back to the first position.
pub select_many_round :
    (s : LoadBalanceState) (server_type : Str) (servers : List ServersConfig)
    → next_index s server_type ≡ 0
    → 0 < length servers
    → let round = select_many (length servers) s server_type servers in
      (round.0 ≡ map (λ server. ok server.id) servers) × (next_index round.1 server_type ≡ 0)
select_many_round s server_type servers e h =
    let (ids, last) =
      select_many-turns (length servers) s server_type servers 0 (e ∙ omega arith) h in
    (ids ∙ turns_low [] servers, last ∙ add-mod_right 0 (length servers) ∙ omega arith)

-- A position that was stored for a longer list crashes the selection.
pub select_round_robin_server_shrunk :
    (s : LoadBalanceState) (server_type : Str) (servers : List ServersConfig)
    → length servers ≤ next_index s server_type
    → (select_round_robin_server s server_type servers).0 ≡ panic
unfolding select_round_robin_server id_at
select_round_robin_server_shrunk s server_type servers h =
    rw (get_elem?-none servers (next_index s server_type) h)
