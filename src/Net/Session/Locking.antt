-- ===== src/Net/Session/Locking.antt =====
-- Which methods of a session return.
use recreation_test.Base.{
  ◌≡◌, ◌≢◌, refl, if◌then◌else◌, List, [], some, Str, str_eq, str_eq_iff, str_eq_refl, lookup,
  lookup-insert, string_eq, ok, panic, arith,
}
use recreation_test.Net.Session.{
  free, lock, unlock, r_lock, Session, locked, put, put_body, get, set_data, set_data_body, set_all,
  set_all_body, close, close_body,
}

module _ {ℓ} {V : Type ℓ} where
  get-unlocked : (s : Session V) (key : Str) → s.mutex ≡ free → get s key ≡ panic
  unfolding get r_lock unlock
  get-unlocked s key e = rw e refl

  -- On a free lock `Put`, `SetData`, `SetAll` and `Close` return and leave the lock free. `Put` writes
  -- its key and no other; `SetData` changes nothing for another user id.
  pub methods_return :
      (s : Session V) (key j uid : Str) (value : V) (new : List (Str × V))
      → s.mutex ≡ free
      → (put s key value ≡ ok (put_body key value s))
        × (set_data s uid new ≡ ok (set_data_body uid new s))
        × (set_all s new ≡ ok (set_all_body new s))
        × (close s ≡ ok (close_body s))
        × (lookup j (put_body key value s).data_map
            ≡ (if str_eq key j then some value else lookup j s.data_map))
        × (s.uid ≢ uid → set_data_body uid new s ≡ s)
  unfolding put set_data set_all close locked lock unlock put_body set_data_body set_all_body
      close_body
  methods_return s key j uid value new e = (
    ground arith,
    ground arith,
    ground arith,
    ground arith,
    lookup-insert key j value s.data_map,
    λ h. ground (arith, str_eq_iff s.uid uid),
  )

  -- On a free lock `Put` returns and the value is stored under its key, and then `Get` of that key stops
  -- the program instead of returning the value.
  pub get_fatal :
      (s : Session V) (key : Str) (value : V)
      → s.mutex ≡ free
      → (put s key value ≡ ok (put_body key value s))
        × (lookup key (put_body key value s).data_map ≡ some value)
        × (get (put_body key value s) key ≡ panic)
  unfolding put_body
  get_fatal s key value e =
      let returned = (methods_return s key key s.uid value [] e).0 in
      (
        returned,
        ground (arith, lookup-insert key key value s.data_map, str_eq_refl key),
        get-unlocked (put_body key value s) key e,
      )
