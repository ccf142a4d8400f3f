-- ===== src/Discovery/Resolver.antt =====
-- common/discovery/resolver.go: the addresses of a service, as the gRPC client is told of them. The JSON
-- decoder is the parameter `parse_value`: the server as far as it was filled, and whether it failed. A
-- call of `UpdateState` is an address list that is pushed to the client; its errors are only logged in
-- `update`. All methods have a value receiver, so what one of them stores in its copy of the resolver is
-- gone when it returns.
pub mod Updates
use recreation_test.Base.{
  ℕ, Bool, true, false, not, ◌==◌, if◌then◌else◌, List, [], ◌∷◌, ◌++◌, length, Option, none, some,
  Str, str_eq, Outcome, ok, err, panic,
}
use mathlib.Core.Option
use recreation_test.Discovery.Server.{Server, no_server, parse_key}

pub record Address : Type 0 where
  pub addr : Str
  pub weight : Option ℕ

unfoldable pub exist : List Address → Address → Bool
exist [] a = false
exist (x ∷ list) a = if str_eq x.addr a.addr then true else exist list a

-- `list[i] = list[len-1]` and `list[:len-1]`, for the part of the list from `i` on.
unfoldable pub last_first : List Address → List Address
last_first [] = []
last_first (x ∷ []) = x ∷ []
last_first (x ∷ (y ∷ rest)) = elim (last_first (y ∷ rest)) [ [] ↦ [] | z ∷ others ↦ z ∷ x ∷ others ]

unfoldable pub remove : List Address → Address → Option (List Address)
remove [] a = none
remove (x ∷ list) a =
    let kept = Option.map (◌∷◌ x) (remove list a) in
    if str_eq x.addr a.addr then some (last_first list) else kept

pub data Event : Type 0 where
  put : List ℕ → Event
  delete : Str → Event

abbrev pub address_of : Server → Address
address_of server = record { addr = server.addr; weight = some server.weight }

-- The address that a deleted key stands for: the zero value if the key is not valid.
unfoldable pub deleted_address : Str → Address
deleted_address key = elim (parse_key key) as (λ o. Address) [
  | ok server ↦ record { addr = server.addr; weight = none }
  | err e ↦ record { addr = []; weight = none }
  | panic ↦ record { addr = []; weight = none }
]

module _ (parse_value : List ℕ → Server × Bool) where
  -- One event: the new list, and what is pushed. A value that cannot be decoded is logged and then used.
  unfoldable pub update_one : List Address → Event → List Address × List (List Address)
  update_one list (put value) =
      let addr = address_of (parse_value value).0 in
      let longer = list ++ (addr ∷ []) in
      if exist list addr then (list, []) else (longer, longer ∷ [])
  update_one list (delete key) = elim (remove list (deleted_address key)) [
    | none ↦ (list, [])
    | some shorter ↦ (shorter, shorter ∷ [])
  ]

  unfoldable pub update : List Address → List Event → List Address × List (List Address)
  update list [] = (list, [])
  update list (event ∷ events) =
      let (list', pushed) = update_one list event in
      let (last, more) = update list' events in (last, pushed ++ more)

  -- The addresses that `sync` collects from the values of the service's keys.
  unfoldable pub sync_addresses : List (List ℕ) → List Address
  sync_addresses [] = []
  sync_addresses (value ∷ values) =
      let (server, failed) = parse_value value in
      if failed then sync_addresses values else address_of server ∷ sync_addresses values

  -- What one `sync` pushes: nothing for no addresses.
  unfoldable pub sync : List (List ℕ) → List (List Address)
  sync values = elim (sync_addresses values) [ [] ↦ [] | a ∷ rest ↦ (a ∷ rest) ∷ [] ]

  -- What the watching goroutine does: it is told of events, or its ticker makes it read all keys.
  -- The resolver that it copies has the empty list, since `sync` filled a copy.
  pub data Wake : Type 0 where
    events : List Event → Wake
    tick : List (List ℕ) → Wake

  unfoldable pub watch : List Wake → List (List Address)
  watch [] = []
  watch (events evs ∷ wakes) = (update [] evs).1 ++ watch wakes
  watch (tick values ∷ wakes) = sync values ++ watch wakes

  -- `Build` pushes what it reads first, and then watches.
  unfoldable pub build : List (List ℕ) → List Wake → List (List Address)
  build values wakes = sync values ++ watch wakes
