-- ===== src/Net/Selection/Loads.antt =====
-- The least-connection strategy against the loads that were reported.
use recreation_test.Base.{
  ℕ, ◌≤◌, ◌<◌, ◌≡◌, refl, ◌⊎◌, inl, inr, ltb, List, [], ◌∷◌, ◌++◌, length, none, some, Str, lookup,
  string_eq, arith, All, Bool-cases,
}
use recreation_test.Base.Int.{ℤ, pos, negsuc}
use recreation_test.Game.Config.{ServersConfig}
use recreation_test.Net.Ring.Members.{IsServer}
use recreation_test.Net.Selection.{
  LoadBalanceState, least_loop, load_of, select_least_connection_server,
}

module _ (loads : List (Str × ℤ)) where
  -- A load was reported, and it is not negative.
  abbrev pub IsReported : ServersConfig → Type 0
  IsReported server = (n : ℕ) × (lookup server.id loads ≡ some (pos n))

  abbrev pub IsAtLeast : ℕ → ServersConfig → Type 0
  IsAtLeast n server = (m : ℕ) → lookup server.id loads ≡ some (pos m) → n ≤ m

  All-IsAtLeast :
      (n m : ℕ) (l : List ServersConfig) → n ≤ m → All (IsAtLeast m) l → All (IsAtLeast n) l
  All-IsAtLeast n m [] h a = tt
  All-IsAtLeast n m (x ∷ l) h (p, a) = (λ k e. omega (arith, p k e), All-IsAtLeast n m l h a)

  -- `id` is selected with the load `n`, which no server goes below.
  abbrev IsLeast : Str → ℕ → List ServersConfig → Str → Type 0
  IsLeast selected least servers id =
      (n : ℕ) × (lookup id loads ≡ some (pos n))
      × (n ≤ least)
      × All (IsAtLeast n) servers
      × ((id ≡ selected) ⊎ IsServer servers id)

  least_loop-IsLeast :
      (least : ℕ) (selected : Str) (servers : List ServersConfig)
      → lookup selected loads ≡ some (pos least)
      → All IsReported servers
      → IsLeast selected least servers (least_loop loads (pos least) selected servers)
  unfolding least_loop
  least_loop-IsLeast least selected [] e a = (least, e, omega arith, tt, inl refl)
  least_loop-IsLeast least selected (server ∷ rest) e ((m, em), a) =
      elim (Bool-cases (ltb m least)) [
        | inl less ↦
            let (n, en, h, low, from) = least_loop-IsLeast m server.id rest em a in
            rw (em, less) (n, en, ground arith, (λ k ek. ground arith, low), inr from)
        | inr more ↦
            let (n, en, h, low, from) = least_loop-IsLeast least selected rest e a in
            rw (em, more)
              (
                n,
                en,
                h,
                (λ k ek. ground arith, low),
                elim from [ inl same ↦ inl same | inr later ↦ inr (inr later) ],
              )
      ]

  least_loop-idle :
      (selected : Str) (servers : List ServersConfig)
      → All IsReported servers
      → least_loop loads (pos 0) selected servers ≡ selected
  unfolding least_loop
  least_loop-idle selected [] a = refl
  least_loop-idle selected (server ∷ rest) ((m, em), a) =
      rw em (ground (arith, least_loop-idle selected rest a))

  least_loop-unreported :
      (before : List ServersConfig) (min_load : ℤ) (selected : Str) (server : ServersConfig)
      (after : List ServersConfig)
      → lookup server.id loads ≡ none
      → All IsReported after
      → least_loop loads min_load selected (before ++ (server ∷ after)) ≡ server.id
  unfolding least_loop
  least_loop-unreported [] min_load selected server after e a =
      rw e (least_loop-idle server.id after a)
  least_loop-unreported (x ∷ before) min_load selected server after e a = ground (
    arith,
    least_loop-unreported before (load_of (lookup x.id loads)) x.id server after e a,
    least_loop-unreported before min_load selected server after e a,
  )

least_loop-from :
    (loads : List (Str × ℤ)) (min_load : ℤ) (selected : Str) (servers : List ServersConfig)
    → (least_loop loads min_load selected servers ≡ selected)
      ⊎ IsServer servers (least_loop loads min_load selected servers)
unfolding least_loop
least_loop-from loads min_load selected [] = inl refl
least_loop-from loads min_load selected (server ∷ rest) =
    let load = load_of (lookup server.id loads) in
    ground (
      arith,
      least_loop-from loads load server.id rest,
      least_loop-from loads min_load selected rest,
    )

-- Whatever was reported, a server of the list is picked.
pub select_least_connection_server-IsServer :
    (s : LoadBalanceState) (servers : List ServersConfig)
    → 0 < length servers
    → IsServer servers (select_least_connection_server s servers)
unfolding select_least_connection_server least_loop
select_least_connection_server-IsServer s [] h = absurd (omega arith)
select_least_connection_server-IsServer s (server ∷ rest) h = ground (
  arith,
  least_loop-from s.server_loads (load_of (lookup server.id s.server_loads)) server.id rest,
)

-- If every server has reported a load, none of them negative, then the one that is picked is among them,
-- and no load is below its load.
pub select_least_connection_server_least :
    (s : LoadBalanceState) (servers : List ServersConfig)
    → All (IsReported s.server_loads) servers
    → 0 < length servers
    → (n : ℕ) × (lookup (select_least_connection_server s servers) s.server_loads ≡ some (pos n))
      × All (IsAtLeast s.server_loads n) servers
      × IsServer servers (select_least_connection_server s servers)
unfolding select_least_connection_server least_loop
select_least_connection_server_least s [] a h = absurd (omega arith)
select_least_connection_server_least s (server ∷ rest) ((m, em), a) h =
    let (n, en, le, low, from) = least_loop-IsLeast s.server_loads m server.id rest em a in
    rw em (
      n,
      en,
      (λ k ek. ground arith, low),
      elim from [ inl same ↦ inl same | inr later ↦ inr later ],
    )

-- A server that never reported counts as idle even beside servers with load 0: the last one of them in
-- the list is picked, whatever the others have reported, if their loads are not negative.
pub select_least_connection_server_unreported :
    (s : LoadBalanceState) (before : List ServersConfig) (server : ServersConfig)
    (after : List ServersConfig)
    → lookup server.id s.server_loads ≡ none
    → All (IsReported s.server_loads) after
    → select_least_connection_server s (before ++ (server ∷ after)) ≡ server.id
unfolding select_least_connection_server
select_least_connection_server_unreported s before server after e a =
    least_loop-unreported s.server_loads before (negsuc 0) [] server after e a
