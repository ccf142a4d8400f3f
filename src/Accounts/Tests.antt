-- ===== src/Accounts/Tests.antt =====
-- Ids, the lock and the users at concrete inputs, with stores that are lists.
use recreation_test.Base.{
  ℕ, ◌+◌, ◌≡◌, refl, List, [], ◌∷◌, Option, Str, lookup, insert, lookup-insert, string_eq,
}
use recreation_test.Base.Decimal.{decimal}
use recreation_test.Net.Clients.{update_at}
use recreation_test.Net.Pool.Ids.{AreDistinct}
use recreation_test.Accounts.Ids
use recreation_test.Accounts.Ids.{
  account_id_key, account_id_begin, Redis, is_some, or_zero, IsRedis,
}
use recreation_test.Accounts.Ids.Distinct.{ids-AreDistinct, ids_restart}

-- Redis as a list of keys.
abbrev pub Keys : Type 0
Keys = List (Str × ℕ)

abbrev pub key_value : Str → Keys → Option ℕ
key_value key s = lookup key s

abbrev pub list_redis : Redis Keys
list_redis = record {
  exists = λ key s. is_some (lookup key s);
  set = λ key n s. insert key n s;
  incr = λ key s. (or_zero (lookup key s) + 1, insert key (or_zero (lookup key s) + 1) s);
}

pub list_redis-IsRedis : IsRedis list_redis key_value
list_redis-IsRedis = record {
  exists_lem = λ key s. refl;
  set_lem = λ key other n s. lookup-insert key other n s;
  incr_answer = λ key s. refl;
  incr_lem = λ key other s. lookup-insert key other (or_zero (lookup key s) + 1) s;
}

abbrev pub five : Keys
five = (account_id_key, 5) ∷ []

-- The world behind the next call of a request.
abbrev after : Ids.World Keys → ℕ → Ids.Request → Ids.World Keys
after w i r = record {
  store = (Ids.advance list_redis r w.store).1;
  requests = Ids.at w i (Ids.advance list_redis r w.store).0;
  ids = Ids.give (Ids.advance list_redis r w.store).2 w.ids;
}

-- Two requests that have both looked for the key.
abbrev both_checked : Keys → Ids.World Keys
both_checked s =
    after
      (after (record { store = s; requests = Ids.checking ∷ Ids.checking ∷ []; ids = [] }) 0
        Ids.checking)
      1 Ids.checking

both_checked-Reaches : (s : Keys) → Ids.Reaches list_redis s (both_checked s)
unfolding update_at Ids.advance
both_checked-Reaches s =
    Ids.onward
      (Ids.onward (Ids.onward (Ids.onward Ids.start Ids.arrived) Ids.arrived)
        (Ids.moved 0 Ids.checking refl))
      (Ids.moved 1 Ids.checking refl)

abbrev sixth : Ids.World Keys
sixth = after (both_checked five) 0 Ids.incrementing

sixth-Reaches : Ids.Reaches list_redis five sixth
sixth-Reaches =
    Ids.onward (both_checked-Reaches five)
      (Ids.moved 0 Ids.incrementing (unfold update_at Ids.advance lookup in refl))

ids-AreDistinct_example : AreDistinct sixth.ids
ids-AreDistinct_example =
    ids-AreDistinct list_redis key_value 5 five sixth list_redis-IsRedis (unfold lookup in refl)
      sixth-Reaches

-- Without the key, the first request gets the first id while the other is about to write the key.
abbrev first_given : Ids.World Keys
first_given = after (after (both_checked []) 0 Ids.setting) 0 Ids.incrementing

first_given-Reaches : Ids.Reaches list_redis [] first_given
first_given-Reaches =
    Ids.onward
      (Ids.onward (both_checked-Reaches [])
        (Ids.moved 0 Ids.setting (unfold update_at Ids.advance lookup in refl)))
      (Ids.moved 0 Ids.incrementing (unfold update_at Ids.advance lookup insert in refl))

ids_restart_example :
    (w' : Ids.World Keys) × Ids.Reaches list_redis [] w'
    × (w'.ids ≡ decimal 10_001 ∷ first_given.ids)
ids_restart_example =
    ids_restart list_redis key_value [] first_given 1 list_redis-IsRedis first_given-Reaches
      (unfold update_at Ids.advance lookup insert in refl)
