-- ===== src/Net/Ring.antt =====
-- framework/net/load_balance_strategy.go: the consistent hash ring of one server type. `sort.Slice`
-- and `sort.Search` are those of Go's library: a sorted list of numbers is unique, and the search is
-- the binary search over the positions below `n`.
pub mod Sorted
pub mod Search
pub mod Members
use recreation_test.Base.{
  ℕ, zero, suc, ◌+◌, ◌/◌, Bool, true, false, ltb, leb, ◌==◌, if◌then◌else◌, List, [], ◌∷◌, ◌++◌,
  length, get_elem?, Option, none, some, Str, bytes, lookup, insert, nat_eq,
}
use recreation_test.Base.Decimal.{decimal}
use recreation_test.Game.Config.{ServersConfig}
use recreation_test.Net.Hash.{fnv32}

pub record ConsistentHash : Type 0 where
  pub hash_ring : List ℕ
  pub mapping : List (ℕ × Str)

abbrev pub virtual_nodes : ℕ
virtual_nodes = 100

-- `fmt.Sprintf("%s-%d", server.ID, i)`.
unfoldable pub node_key : Str → ℕ → Str
node_key id i = id ++ (bytes "-" ++ decimal i)

unfoldable pub add_node : ServersConfig → ℕ → ConsistentHash → ConsistentHash
add_node server i ring =
    let hash = fnv32 (node_key server.id i) in
    record {
      hash_ring = ring.hash_ring ++ (hash ∷ []);
      mapping = insert hash server.id ring.mapping;
    }

-- The inner loop: `n` more nodes from number `i` on.
unfoldable pub add_nodes : ServersConfig → ℕ → ℕ → ConsistentHash → ConsistentHash
add_nodes server i zero ring = ring
add_nodes server i (suc n) ring = add_nodes server (i + 1) n (add_node server i ring)

unfoldable pub add_all_nodes : List ServersConfig → ConsistentHash → ConsistentHash
add_all_nodes [] ring = ring
add_all_nodes (server ∷ rest) ring = add_all_nodes rest (add_nodes server 0 virtual_nodes ring)

unfoldable pub insert_sorted : ℕ → List ℕ → List ℕ
insert_sorted x [] = x ∷ []
insert_sorted x (y ∷ ys) = if leb x y then x ∷ y ∷ ys else y ∷ insert_sorted x ys

unfoldable pub sort : List ℕ → List ℕ
sort [] = []
sort (x ∷ xs) = insert_sorted x (sort xs)

-- `initConsistentHash` without the store into the state.
unfoldable pub build_ring : List ServersConfig → ConsistentHash
build_ring servers =
    let full = add_all_nodes servers (record { hash_ring = []; mapping = [] }) in
    record { hash_ring = sort full.hash_ring; mapping = full.mapping }

-- `sort.Search`: the positions from `i` to `j` are open, and each round halves them.
unfoldable pub search_loop : ℕ → (ℕ → Bool) → ℕ → ℕ → ℕ
search_loop zero holds i j = i
search_loop (suc fuel) holds i j =
    let h = (i + j) / 2 in
    let right = search_loop fuel holds (h + 1) j in
    let left = search_loop fuel holds i h in
    if ltb i j then (if holds h then left else right) else i

unfoldable pub sort_search : ℕ → (ℕ → Bool) → ℕ
sort_search n holds = search_loop n holds 0 n

-- `hashRing[i] >= keyHash`, for a position of the ring.
abbrev pub at_least : List ℕ → ℕ → ℕ → Bool
at_least ring key_hash i = elim (get_elem? ring i) as (λ o. Bool) [
  | none ↦ true
  | some p ↦ leb key_hash p
]

-- The position that the code looks up, wrapped round at the end of the ring.
unfoldable pub ring_index : List ℕ → ℕ → ℕ
ring_index ring key_hash =
    let idx = sort_search (length ring) (at_least ring key_hash) in
    if idx == length ring then 0 else idx

-- The server of a key on a ring that is not empty: a position without a mapping gives the empty
-- string, Go's zero value.
unfoldable pub ring_server : ConsistentHash → Str → Str
ring_server ring key =
    elim (get_elem? ring.hash_ring (ring_index ring.hash_ring (fnv32 key))) as (λ o. Str) [
      | none ↦ []
      | some p ↦ elim (lookup p ring.mapping) as (λ o. Str) [ none ↦ [] | some id ↦ id ]
    ]
