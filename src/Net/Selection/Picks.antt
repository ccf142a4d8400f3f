-- ===== src/Net/Selection/Picks.antt =====
-- Which server each strategy picks.
use recreation_test.Base.{
  ℕ, zero, suc, ◌+◌, ◌-◌, ◌≤◌, ◌<◌, ◌≡◌, inl, inr, ltb, List, [], ◌∷◌, length, get_elem?,
  get_elem?-lt, some, Str, lookup, string_eq, Outcome, ok, err, panic, arith, Bool-cases,
}
use recreation_test.Game.Config.{ServersConfig}
use recreation_test.Net.Ring.{ConsistentHash, ring_server}
use recreation_test.Net.Ring.Members.{IsServer}
use recreation_test.Net.Selection.{
  LoadBalanceState, SelectError, id_at, weighted_loop, select_random_server,
  select_weighted_round_robin_server, ensure_ring, select_consistent_hash_server,
}

-- The result is the id of one of the servers.
abbrev pub IsPick : List ServersConfig → Outcome SelectError Str → Type 0
IsPick servers (ok id) = IsServer servers id
IsPick servers (err e) = ⊥
IsPick servers panic = ⊥

get_elem?-IsServer :
    (servers : List ServersConfig) (i : ℕ) (server : ServersConfig)
    → get_elem? servers i ≡ some server
    → IsServer servers server.id
get_elem?-IsServer [] i server e = absurd (cc)
get_elem?-IsServer (x ∷ rest) zero server e = inl (ground arith)
get_elem?-IsServer (x ∷ rest) (suc i) server e = inr (get_elem?-IsServer rest i server e)

pub id_at-IsPick :
    (servers : List ServersConfig) (i : ℕ) → i < length servers → IsPick servers (id_at servers i)
unfolding id_at
id_at-IsPick servers i h =
    let (server, e) = get_elem?-lt servers i h in
    rw (e, id_at) (get_elem?-IsServer servers i server e)

weighted_loop-get_elem? :
    (r c : ℕ) (servers : List ServersConfig) (server : ServersConfig)
    → c ≤ r
    → get_elem? servers (r - c) ≡ some server
    → weighted_loop r c servers ≡ some server.id
unfolding weighted_loop
weighted_loop-get_elem? r c [] server h e = cc
weighted_loop-get_elem? r c (x ∷ rest) server h e = elim (Bool-cases (ltb r (c + 1))) [
  | inl last ↦
      let first : r - c ≡ zero = ground arith in
      let e' : get_elem? (x ∷ rest) zero ≡ some server = rw first at e in rw last (ground arith)
  | inr more ↦
      let later : r - c ≡ suc (r - (c + 1)) = ground arith in
      let e' : get_elem? (x ∷ rest) (suc (r - (c + 1))) ≡ some server = rw later at e in
      rw more (weighted_loop-get_elem? r (c + 1) rest server (ground arith) e')
]

module _ (intn : ℕ → ℕ) (fair : (n : ℕ) → 0 < n → intn n < n) where
  -- Every weight is 1, so for each draw the weighted strategy picks the server that the random
  -- strategy picks.
  pub weighted-random :
      (servers : List ServersConfig)
      → 0 < length servers
      → select_weighted_round_robin_server intn servers ≡ select_random_server intn servers
  unfolding select_weighted_round_robin_server select_random_server id_at
  weighted-random servers h =
      let r = intn (length servers) in
      let (server, e) = get_elem?-lt servers r (fair (length servers) h) in
      let same : r - 0 ≡ r = omega arith in
      let e' : get_elem? servers (r - 0) ≡ some server = rw same e in
      ground (arith, e, weighted_loop-get_elem? r 0 servers server (omega arith) e')

  pub select_random_server-IsPick :
      (servers : List ServersConfig)
      → 0 < length servers
      → IsPick servers (select_random_server intn servers)
  unfolding select_random_server
  select_random_server-IsPick servers h =
      id_at-IsPick servers (intn (length servers)) (fair (length servers) h)

-- A ring that a type has is never built again: the pick is the one on the old ring, whatever the list
-- of servers is by now, and the state stays as it is.
pub select_consistent_hash_server_stale :
    (intn : ℕ → ℕ) (s : LoadBalanceState) (server_type key : Str) (ring : ConsistentHash)
    (servers : List ServersConfig)
    → lookup server_type s.hash_ring ≡ some ring
    → 0 < length ring.hash_ring
    → select_consistent_hash_server intn s server_type key servers ≡ (ok (ring_server ring key), s)
unfolding select_consistent_hash_server ensure_ring
select_consistent_hash_server_stale intn s server_type key ring servers e h = ground arith
