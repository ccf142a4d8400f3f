-- ===== src/Discovery/Resolver/Updates.antt =====
-- The address list under events, and what the client is told.
use recreation_test.Base.{
  ℕ, ◌≡◌, ◌≢◌, refl, sym, Bool, true, false, List, [], ◌∷◌, ◌++◌, map, Option, none, some, Str,
  str_eq, str_eq_iff, arith, Bool-cases, inl, inr, All,
}
use mathlib.Core.List.{Perm}
use mathlib.Core.List.Perm
use mathlib.Core.Option
use recreation_test.Discovery.Server.{Server}
use recreation_test.Discovery.Server.{build_register_key}
use recreation_test.Discovery.Server.Keys.{IsPlain, parse_key-build_register_key}
use recreation_test.Discovery.Resolver.{
  Address, exist, last_first, remove, put, delete, address_of, deleted_address, update_one, update,
  sync, events, watch, build,
}

-- Moving the last element to the front.
rotated-perm :
    (x : Address) (l ys : List Address)
    → Perm l ys
    → ys ≢ []
    → Perm (elim l as (λ o. List Address) [ [] ↦ [] | z ∷ others ↦ z ∷ x ∷ others ]) (x ∷ ys)
rotated-perm x [] ys p h = absurd (h (sym (Perm.nil-eq p)))
rotated-perm x (z ∷ others) ys p h = Perm.trans (Perm.swap x z others) (Perm.cons x p)

last_first-perm : (list : List Address) → Perm (last_first list) list
unfolding last_first
last_first-perm [] = Perm.nil
last_first-perm (x ∷ []) = Perm.refl (x ∷ [])
last_first-perm (x ∷ (y ∷ rest)) =
    rotated-perm x (last_first (y ∷ rest)) (y ∷ rest) (last_first-perm (y ∷ rest)) (λ e. cc)

-- What a removal takes away: one entry with the address, whose other fields do not matter.
abbrev pub Removes : List Address → Address → Option (List Address) → Type 0
Removes list a none = exist list a ≡ false
Removes list a (some shorter) =
    (x : Address) × (x.addr ≡ a.addr) × Perm (x ∷ shorter) list × (exist list a ≡ true)

-- Put a kept entry back before what a removal left.
Removes-cons :
    (x : Address) (list : List Address) (a : Address) (r : Option (List Address))
    → str_eq x.addr a.addr ≡ false
    → Removes list a r
    → Removes (x ∷ list) a (Option.map (◌∷◌ x) r)
unfolding exist
Removes-cons x list a none h p = rw h p
Removes-cons x list a (some shorter) h (y, e, p, k) =
    (y, e, Perm.trans (Perm.swap x y shorter) (Perm.cons x p), rw h k)

-- `Remove` succeeds exactly if `Exist` finds the address; then the new list and one entry with that
-- address are, in some order, the old list.
pub remove-Removes : (list : List Address) (a : Address) → Removes list a (remove list a)
unfolding remove exist
remove-Removes [] a = refl
remove-Removes (x ∷ list) a = elim (Bool-cases (str_eq x.addr a.addr)) [
  | inl same ↦
      rw same (x, (str_eq_iff x.addr a.addr).0 same, Perm.cons x (last_first-perm list), rw same)
  | inr other ↦ rw other (Removes-cons x list a (remove list a) other (remove-Removes list a))
]

remove-none : (list : List Address) (a : Address) → exist list a ≡ false → remove list a ≡ none
unfolding remove exist
remove-none [] a h = refl
remove-none (x ∷ list) a h = ground (arith, remove-none list a)

exist-unnamed :
    (list : List Address) (a : Address)
    → a.addr ≡ []
    → All (λ x. x.addr ≢ []) list
    → exist list a ≡ false
unfolding exist
exist-unnamed [] a e h = refl
exist-unnamed (x ∷ list) a e (hx, h) =
    ground (arith, str_eq_iff x.addr a.addr, exist-unnamed list a e h)

deleted-versioned :
    (s : Server)
    → IsPlain s
    → s.version ≢ []
    → deleted_address (build_register_key s) ≡ (record { addr = []; weight = none })
unfolding deleted_address
deleted-versioned s p h = rw ((parse_key-build_register_key s p).0 h, deleted_address) refl

deleted-plain :
    (s : Server)
    → IsPlain s
    → s.version ≡ []
    → deleted_address (build_register_key s) ≡ (record { addr = s.addr; weight = none })
unfolding deleted_address
deleted-plain s p h = rw ((parse_key-build_register_key s p).1 h, deleted_address) refl

module _ (parse_value : List ℕ → Server × Bool) where
  -- The deletion of the key of a server that was registered with a version is never seen: the list
  -- stays, with the server's address in it, and nothing is pushed.
  pub update_one-delete_versioned :
      (s : Server) (list : List Address)
      → IsPlain s
      → s.version ≢ []
      → All (λ x. x.addr ≢ []) list
      → update_one parse_value list (delete (build_register_key s)) ≡ (list, [])
  unfolding update_one
  update_one-delete_versioned s list p h named =
      let unnamed =
        remove-none list (record { addr = []; weight = none })
          (exist-unnamed list (record { addr = []; weight = none }) refl named) in
      rw (deleted-versioned s p h, update_one) (rw (unnamed, update_one) refl)

  -- The deletion of the key of a server without a version takes out one entry with its address, if there
  -- is one, and pushes the new list.
  pub update_one-delete_plain :
      (s : Server) (list : List Address)
      → IsPlain s
      → s.version ≡ []
      → let a : Address = record { addr = s.addr; weight = none } in
        update_one parse_value list (delete (build_register_key s))
        ≡ (elim (remove list a) as (λ o. List Address × List (List Address)) [
          | none ↦ (list, [])
          | some shorter ↦ (shorter, shorter ∷ [])
        ])
  unfolding update_one
  update_one-delete_plain s list p h = rw (deleted-plain s p h, update_one) refl

  update-deletes : (keys : List Str) → update parse_value [] (map delete keys) ≡ ([], [])
  unfolding update update_one remove
  update-deletes [] = refl
  update-deletes (k ∷ keys) = rw (update-deletes keys)

  -- The watching goroutine starts each batch of events from the empty list: deletions alone are never
  -- pushed, and one put pushes its address alone, so the servers that the first `sync` pushed are gone
  -- for the client.
  pub build_forgets :
      (values : List (List ℕ)) (keys : List Str) (value : List ℕ)
      → build parse_value values (events (map delete keys) ∷ events (put value ∷ []) ∷ [])
        ≡ sync parse_value values ++ ((address_of (parse_value value).0 ∷ []) ∷ [])
  unfolding build watch update update_one exist
  build_forgets values keys value = rw (update-deletes keys)
