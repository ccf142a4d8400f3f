-- ===== src/Net/Ring/Search.antt =====
-- The binary search of the ring, against its specification: the first position where a monotone
-- test holds.
use recreation_test.Base.{
  ℕ, zero, suc, ◌+◌, ◌/◌, ◌≤◌, ◌<◌, ◌≡◌, refl, ◌⊎◌, inl, inr, Bool, true, false, ltb, ◌==◌, List,
  length, get_elem?, get_elem?-lt, get_elem?-some_lt, some, arith, Bool-cases,
}
use recreation_test.Net.Ring.{search_loop, sort_search, at_least, ring_index}
use recreation_test.Net.Ring.Sorted.{IsSorted, IsSorted-get_elem?}

-- The test fails below `r`, and holds from `r` up to `n`.
pub record IsFirst (holds : ℕ → Bool) (n r : ℕ) : Type 0 where
  pub in_range : r ≤ n
  pub below : (k : ℕ) → k < r → holds k ≡ false
  pub above : (k : ℕ) → r ≤ k → k < n → holds k ≡ true

module _ (holds : ℕ → Bool) (n : ℕ)
    (mono : (a b : ℕ) → a ≤ b → b < n → holds a ≡ true → holds b ≡ true) where
  search_loop-IsFirst :
      (fuel i j : ℕ)
      → i ≤ j
      → j ≤ n
      → j ≤ i + fuel
      → ((k : ℕ) → k < i → holds k ≡ false)
      → ((k : ℕ) → j ≤ k → k < n → holds k ≡ true)
      → IsFirst holds n (search_loop fuel holds i j)
  unfolding search_loop
  search_loop-IsFirst zero i j hij hj hf lo hi = record {
    in_range = omega arith;
    below = lo;
    above = λ k h. hi k (omega arith);
  }
  search_loop-IsFirst (suc fuel) i j hij hj hf lo hi = elim (Bool-cases (ltb i j)) [
    | inr closed ↦
        rw closed
          (record { in_range = omega arith; below = lo; above = λ k h. hi k (ground arith) })
    | inl open' ↦ rw open' (elim (Bool-cases (holds ((i + j) / 2))) [
      | inl hit ↦ rw hit (
          search_loop-IsFirst fuel i ((i + j) / 2) (ground arith) (ground arith) (ground arith) lo
            (λ k h small. mono ((i + j) / 2) k h small hit))
      | inr miss ↦ rw miss (
          search_loop-IsFirst fuel ((i + j) / 2 + 1) j (ground arith) hj (ground arith)
            (λ k h. elim (Bool-cases (holds k)) [
              | inr fails ↦ fails
              | inl holds_k ↦ cc (mono k ((i + j) / 2) (omega arith) (ground arith) holds_k)
            ])
            hi)
    ])
  ]

  -- Enough rounds are given, so the search ends at the first position where the test holds, or at `n`.
  pub sort_search-IsFirst : IsFirst holds n (sort_search n holds)
  unfolding sort_search
  sort_search-IsFirst =
      search_loop-IsFirst n 0 n (omega arith) (omega arith) (omega arith) (λ k h. elim h [ ])
        (λ k h small. absurd (omega arith))

module _ (ring : List ℕ) (key_hash : ℕ) (s : IsSorted ring) where
  at_least_mono :
      (a b : ℕ)
      → a ≤ b
      → b < length ring
      → at_least ring key_hash a ≡ true
      → at_least ring key_hash b ≡ true
  at_least_mono a b h small hit =
      let (p, ep) = get_elem?-lt ring a (omega arith) in
      let (q, eq) = get_elem?-lt ring b small in
      ground (arith, IsSorted-get_elem? ring a b p q s h ep eq)

  ring_search :
      IsFirst
        (at_least ring key_hash)
        (length ring)
        (sort_search (length ring) (at_least ring key_hash))
  ring_search = sort_search-IsFirst (at_least ring key_hash) (length ring) at_least_mono

-- On a sorted ring that is not empty the position of a key is in range, all points before it are below
-- the key's hash, and either it and all later points are at or above the hash, or every point is below
-- and the position is 0, round the end of the ring.
pub ring_index_first :
    (ring : List ℕ) (key_hash : ℕ)
    → IsSorted ring
    → 0 < length ring
    → let idx = ring_index ring key_hash in
      (idx < length ring)
      × ((i p : ℕ) → get_elem? ring i ≡ some p → i < idx → p < key_hash)
      × (((i p : ℕ) → get_elem? ring i ≡ some p → idx ≤ i → key_hash ≤ p)
          ⊎ ((idx ≡ 0) × ((i p : ℕ) → get_elem? ring i ≡ some p → p < key_hash)))
unfolding ring_index
ring_index_first ring key_hash s h =
    let found = ring_search ring key_hash s in
    let idx = sort_search (length ring) (at_least ring key_hash) in
    elim (Bool-cases (idx == length ring)) [
      | inl past ↦ rw past (
        omega arith,
        λ i p e small. absurd (omega arith),
        inr (
          refl,
          λ i p e.
              let inside : i < length ring = get_elem?-some_lt ring i p e in
              ground (arith, found.below i (ground arith)),
        ),
      )
      | inr inside ↦ rw inside (
        ground (arith, found.in_range),
        λ i p e small. ground (arith, found.below i small),
        inl (λ i p e high. ground (arith, found.above i high (get_elem?-some_lt ring i p e))),
      )
    ]
