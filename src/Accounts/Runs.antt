-- ===== src/Accounts/Runs.antt =====
-- The lock and the users at concrete inputs, with stores that are a field and lists.
use mathlib.Core.Option
use recreation_test.Base.{
  ℕ, ◌≤◌, ◌≡◌, inr, zero, suc, refl, sym, ap, true, if◌then◌else◌, List, [], ◌∷◌, ◌++◌, get_elem?,
  Option, none, some, Str, bytes, Outcome, ok, err, panic, arith,
}
use recreation_test.Base.Int.{pos}
use recreation_test.Net.Clients.{update_at}
use recreation_test.Accounts.Requests.{put_at}
use recreation_test.Accounts.Lock
use recreation_test.Accounts.Lock.{Users, IsCollection, written, is_unlocked, holding}
use recreation_test.Accounts.Lock.Exclusion.{open_lock, LockStep, Shows}
use recreation_test.Accounts.Lock.Exclusion
use recreation_test.Accounts.Lock.Refinement.{Step-LockStep, field_unlocks}
use recreation_test.Accounts.Documents
use recreation_test.Accounts.Documents.{Collection, first, update_first, occurrences}
use recreation_test.Accounts.Users.{
  User, UserInfo, Account, new_user, bind_phone, write_phone, update_phone_account,
  update_mobile_phone, with_phone_account, account_with_uid,
}
use recreation_test.Accounts.Users.Updates.{
  to_real_name, to_room_id, change, update_user, updates_commute,
}
use recreation_test.Accounts.Users.Phones.{with_phone, bind_phone_lem}

-- A collection with one user, of whom the field is stored.
abbrev Field : Type 0
Field = Option (Option ℕ)

abbrev field_of : Str → Field → Option (Option ℕ)
field_of uid s = s

abbrev one_user : Lock.Users Field
one_user = record {
  find_sync_lock = λ uid s. s;
  set_sync_lock = λ uid n s. written n s;
  find_unlocked_and_lock = λ uid s. (is_unlocked s, if is_unlocked s then some (some 1) else s);
}

one_user-IsCollection : Lock.IsCollection one_user field_of
one_user-IsCollection = record {
  find_lem = λ uid s. refl;
  set_lem = λ uid n s. refl;
  lock_answer = λ uid s. refl;
  lock_lem = λ uid s. refl;
}

abbrev after : Lock.World Field → ℕ → Lock.Request → Lock.World Field
after w i r = record {
  store = (Lock.advance one_user (bytes "u") r w.store).1;
  requests = put_at i (Lock.advance one_user (bytes "u") r w.store).0 w.requests;
}

-- Two requests that have both looked for the field.
abbrev both_looked : Field → Lock.World Field
both_looked s =
    after (after (record { store = s; requests = Lock.looking ∷ Lock.looking ∷ [] }) 0 Lock.looking)
      1 Lock.looking

both_looked-Reaches : (s : Field) → Lock.Reaches one_user (bytes "u") s (both_looked s)
unfolding update_at Lock.advance
both_looked-Reaches s =
    Lock.onward
      (Lock.onward (Lock.onward (Lock.onward Lock.start Lock.arrived) Lock.arrived)
        (Lock.moved 0 Lock.looking refl))
      (Lock.moved 1 Lock.looking refl)

abbrev first_locked : Lock.World Field
first_locked = after (both_looked (some (some 0))) 0 Lock.locking

first_locked-Reaches : Lock.Reaches one_user (bytes "u") (some (some 0)) first_locked
first_locked-Reaches =
    Lock.onward (both_looked-Reaches (some (some 0)))
      (Lock.moved 0 Lock.locking (unfold update_at Lock.advance in refl))

first_holds : get_elem? first_locked.requests 0 ≡ some holding
unfolding update_at Lock.advance
first_holds = refl

abbrev one_waiting : Lock.World Field
one_waiting = record { store = some (some 0); requests = Lock.locking ∷ [] }

one_waiting-Shows : Shows field_of (bytes "u") open_lock one_waiting
one_waiting-Shows = record {
  field = refl;
  only = record { only = alone; looked = none_adding };
  there = tt;
}
  where
    alone : (j : ℕ) → get_elem? one_waiting.requests j ≡ some holding → some j ≡ none
    alone zero e = absurd (cc)
    alone (suc j) e = absurd (cc)

    none_adding : (j : ℕ) → get_elem? one_waiting.requests j ≡ some Lock.adding → ⊥
    none_adding zero e = cc
    none_adding (suc j) e = cc

Step-LockStep_example :
    (l : Exclusion.Lock) × LockStep open_lock l
    × Shows field_of (bytes "u") l (after one_waiting 0 Lock.locking)
Step-LockStep_example =
    Step-LockStep one_user field_of (bytes "u") one_waiting (after one_waiting 0 Lock.locking)
      open_lock (Lock.moved 0 Lock.locking refl) one_user-IsCollection one_waiting-Shows tt

-- The user's document has no field: one request holds the lock, the other is about to write the field.
abbrev field_missing : Lock.World Field
field_missing = after (after (both_looked (some none)) 0 Lock.adding) 0 Lock.locking

field_missing-Reaches : Lock.Reaches one_user (bytes "u") (some none) field_missing
field_missing-Reaches =
    Lock.onward
      (Lock.onward (both_looked-Reaches (some none))
        (Lock.moved 0 Lock.adding (unfold update_at Lock.advance in refl)))
      (Lock.moved 0 Lock.locking (unfold update_at Lock.advance in refl))

field_unlocks_example :
    (w' : Lock.World Field) × Lock.Reaches one_user (bytes "u") (some none) w'
    × (get_elem? w'.requests 1 ≡ some holding)
    × (get_elem? w'.requests 0 ≡ some holding)
field_unlocks_example =
    field_unlocks one_user field_of (bytes "u") (some none) field_missing 1 0 (some 1)
      one_user-IsCollection field_missing-Reaches (unfold update_at Lock.advance in refl)
      (unfold update_at Lock.advance in refl) (unfold update_at Lock.advance in refl)

-- A collection as the list of its documents.
abbrev pub listed : {D : Type 0} → Collection D (List D)
listed = record {
  find_one = λ f s. ok (first f s);
  insert_one = λ d s. (true, s ++ (d ∷ []));
  update_one = λ f g s. (true, update_first f g s);
}

abbrev pub all_of : {D : Type 0} → List D → List D
all_of ds = ds

pub listed-IsCollection : {D : Type 0} → Documents.IsCollection {D = D} listed all_of
listed-IsCollection = record {
  find_lem = λ f s o e. ap (found_or o) (sym e);
  insert_lem = λ d s e. refl;
  update_lem = λ f g s e. refl;
}
  where
    found_or : {D : Type 0} → Option D → Outcome Documents.DbError (Option D) → Option D
    found_or o (ok p) = p
    found_or o (err e) = o
    found_or o panic = o

abbrev player : UserInfo
player = record { nickname = []; avatar = []; sex = pos 1 }

abbrev other_info : UserInfo
other_info = record { nickname = bytes "N"; avatar = bytes "A"; sex = pos 0 }

abbrev user_u : User ℕ ℕ
user_u = new_user (pos 10) (pos 1000) (bytes "u") player

abbrev pub account_u : Account
account_u = record {
  uid = bytes "u";
  account = [];
  password = [];
  phone_account = [];
  wx_account = bytes "w";
  create_time = pos 0;
  role_list = none;
}

bind_u : bind_phone listed listed (bytes "u") (bytes "123") (account_u ∷ []) (user_u ∷ []) ≡ (
  ok tt,
  with_phone (bytes "123") account_u ∷ [],
  record user_u { mobile_phone = bytes "123" } ∷ [],
)
unfolding bind_phone write_phone update_phone_account update_mobile_phone first update_first
    new_user
bind_u = refl

no_phone_twice : occurrences Account.phone_account (bytes "123") (account_u ∷ []) ≤ 1
unfolding occurrences
no_phone_twice = omega arith

bind_phone_lem_example :
    (first (with_phone_account (bytes "123")) (account_u ∷ []) ≡ none)
    × (first (with_phone_account (bytes "123")) (with_phone (bytes "123") account_u ∷ [])
        ≡ Option.map
            (with_phone (bytes "123"))
            (first (account_with_uid (bytes "u")) (account_u ∷ [])))
    × (occurrences Account.phone_account (bytes "123") (with_phone (bytes "123") account_u ∷ [])
        ≤ 1)
bind_phone_lem_example =
    bind_phone_lem listed listed all_of (bytes "u") (bytes "123") (bytes "123") (account_u ∷ [])
      (with_phone (bytes "123") account_u ∷ []) (user_u ∷ [])
      (record user_u { mobile_phone = bytes "123" } ∷ []) listed-IsCollection bind_u no_phone_twice

abbrev named_u : User ℕ ℕ
named_u = record user_u { real_name = bytes "R" }

abbrev moved_u : User ℕ ℕ
moved_u = record user_u { room_id = bytes "7" }

abbrev both_u : User ℕ ℕ
both_u = record named_u { room_id = bytes "7" }

updates_commute_example : all_of (both_u ∷ []) ≡ all_of (both_u ∷ [])
unfolding update_user change update_first new_user
updates_commute_example =
    updates_commute listed all_of (bytes "u") (bytes "u") (to_real_name (bytes "R"))
      (to_room_id (bytes "7")) (user_u ∷ []) (named_u ∷ []) (both_u ∷ []) (moved_u ∷ [])
      (both_u ∷ []) listed-IsCollection (inr tt) refl refl refl refl
