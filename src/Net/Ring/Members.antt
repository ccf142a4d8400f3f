-- ===== src/Net/Ring/Members.antt =====
-- Every point of the ring leads to a server that the ring was built for.
use recreation_test.Base.{
  ℕ, zero, suc, ◌+◌, ◌*◌, ◌<◌, ◌≡◌, refl, ◌⊎◌, inl, inr, ◌==◌, List, [], ◌∷◌, length, length-append,
  get_elem?-lt, some, Str, lookup, insert, lookup-insert, nat_eq, arith, All, All-append,
  Bool-cases,
}
use recreation_test.Game.Config.{ServersConfig}
use recreation_test.Net.Hash.{fnv32}
use recreation_test.Net.Ring.{
  ConsistentHash, node_key, add_node, add_nodes, add_all_nodes, build_ring, ring_index, ring_server,
  virtual_nodes,
}
use recreation_test.Net.Ring.Sorted.{IsSorted, All-sort, sort-IsSorted, length-sort, All-get_elem?}
use recreation_test.Net.Ring.Search.{ring_index_first}

-- The id of one of the servers.
abbrev pub IsServer : List ServersConfig → Str → Type 0
IsServer [] id = ⊥
IsServer (server ∷ rest) id = (id ≡ server.id) ⊎ IsServer rest id

module _ (servers : List ServersConfig) where
  -- A point with a mapping to a server.
  abbrev pub IsMapped : List (ℕ × Str) → ℕ → Type 0
  IsMapped mapping p = (id : Str) × (lookup p mapping ≡ some id) × IsServer servers id

  insert-IsMapped :
      (mapping : List (ℕ × Str)) (hash : ℕ) (id : Str) (p : ℕ)
      → IsServer servers id
      → IsMapped mapping p
      → IsMapped (insert hash id mapping) p
  insert-IsMapped mapping hash id p s (id', found, s') = elim (Bool-cases (hash == p)) [
    | inl same ↦ (id, ground (arith, lookup-insert hash p id mapping), s)
    | inr other ↦ (id', ground (arith, lookup-insert hash p id mapping), s')
  ]

  All-insert-IsMapped :
      (mapping : List (ℕ × Str)) (hash : ℕ) (id : Str) (points : List ℕ)
      → IsServer servers id
      → All (IsMapped mapping) points
      → All (IsMapped (insert hash id mapping)) points
  All-insert-IsMapped mapping hash id [] s a = tt
  All-insert-IsMapped mapping hash id (p ∷ ps) s (h, a) =
      (insert-IsMapped mapping hash id p s h, All-insert-IsMapped mapping hash id ps s a)

  abbrev IsComplete : ConsistentHash → Type 0
  IsComplete ring = All (IsMapped ring.mapping) ring.hash_ring

  add_node-IsComplete :
      (server : ServersConfig) (i : ℕ) (ring : ConsistentHash)
      → IsServer servers server.id
      → IsComplete ring
      → IsComplete (add_node server i ring)
  unfolding add_node
  add_node-IsComplete server i ring s c =
      let hash = fnv32 (node_key server.id i) in
      All-append (IsMapped (insert hash server.id ring.mapping)) ring.hash_ring (hash ∷ [])
        (All-insert-IsMapped ring.mapping hash server.id ring.hash_ring s c)
        ((server.id, ground (arith, lookup-insert hash hash server.id ring.mapping), s), tt)

  add_nodes-IsComplete :
      (server : ServersConfig) (i n : ℕ) (ring : ConsistentHash)
      → IsServer servers server.id
      → IsComplete ring
      → IsComplete (add_nodes server i n ring)
  unfolding add_nodes
  add_nodes-IsComplete server i zero ring s c = c
  add_nodes-IsComplete server i (suc n) ring s c =
      add_nodes-IsComplete server (i + 1) n (add_node server i ring) s
        (add_node-IsComplete server i ring s c)

  add_all_nodes-IsComplete :
      (some_servers : List ServersConfig) (ring : ConsistentHash)
      → All (λ server. IsServer servers server.id) some_servers
      → IsComplete ring
      → IsComplete (add_all_nodes some_servers ring)
  unfolding add_all_nodes
  add_all_nodes-IsComplete [] ring a c = c
  add_all_nodes-IsComplete (server ∷ rest) ring (s, a) c =
      add_all_nodes-IsComplete rest (add_nodes server 0 virtual_nodes ring) a
        (add_nodes-IsComplete server 0 virtual_nodes ring s c)

length-add_nodes :
    (server : ServersConfig) (i n : ℕ) (ring : ConsistentHash)
    → length (add_nodes server i n ring).hash_ring ≡ length ring.hash_ring + n
unfolding add_nodes add_node
length-add_nodes server i zero ring = omega arith
length-add_nodes server i (suc n) ring =
    let hash : List ℕ = fnv32 (node_key server.id i) ∷ [] in
    omega (
      arith,
      length-append ring.hash_ring hash,
      length-add_nodes server (i + 1) n (add_node server i ring),
    )

length-add_all_nodes :
    (servers : List ServersConfig) (ring : ConsistentHash)
    → length (add_all_nodes servers ring).hash_ring
      ≡ length ring.hash_ring + virtual_nodes * length servers
unfolding add_all_nodes
length-add_all_nodes [] ring = omega arith
length-add_all_nodes (server ∷ rest) ring = omega (
  arith,
  length-add_nodes server 0 virtual_nodes ring,
  length-add_all_nodes rest (add_nodes server 0 virtual_nodes ring),
)

weaken-IsServer :
    (server : ServersConfig) (servers l : List ServersConfig)
    → All (λ s. IsServer servers s.id) l
    → All (λ s. IsServer (server ∷ servers) s.id) l
weaken-IsServer server servers [] a = tt
weaken-IsServer server servers (s ∷ l) (h, a) = (inr h, weaken-IsServer server servers l a)

each-IsServer : (servers : List ServersConfig) → All (λ s. IsServer servers s.id) servers
each-IsServer [] = tt
each-IsServer (server ∷ rest) = (inl refl, weaken-IsServer server rest rest (each-IsServer rest))

abbrev no_ring : ConsistentHash
no_ring = record { hash_ring = []; mapping = [] }

-- A ring is sorted, has a hundred points for each server, and each point leads to a server.
pub build_ring_lem :
    (servers : List ServersConfig)
    → IsSorted (build_ring servers).hash_ring
      × (length (build_ring servers).hash_ring ≡ 100 * length servers)
      × All (IsMapped servers (build_ring servers).mapping) (build_ring servers).hash_ring
unfolding build_ring
build_ring_lem servers =
    let full = add_all_nodes servers no_ring in
    (
      sort-IsSorted full.hash_ring,
      omega (arith, length-sort full.hash_ring, length-add_all_nodes servers no_ring),
      All-sort (IsMapped servers full.mapping) full.hash_ring
          (add_all_nodes-IsComplete servers servers no_ring (each-IsServer servers) tt),
    )

-- Whatever the key, the ring of a list of servers that is not empty gives the id of one of them.
pub ring_server-IsServer :
    (servers : List ServersConfig) (key : Str)
    → 0 < length servers
    → IsServer servers (ring_server (build_ring servers) key)
unfolding ring_server
ring_server-IsServer servers key h =
    let ring = build_ring servers in
    let (sorted, width, mapped) = build_ring_lem servers in
    let (inside, before, after) =
      ring_index_first ring.hash_ring (fnv32 key) sorted (omega arith) in
    let idx = ring_index ring.hash_ring (fnv32 key) in
    let (p, e) = get_elem?-lt ring.hash_ring idx inside in
    let (id, found, s) =
      All-get_elem? (IsMapped servers ring.mapping) ring.hash_ring idx p mapped e in
    rw (e, found, ring_server) s
