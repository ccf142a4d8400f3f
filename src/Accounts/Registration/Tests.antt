-- ===== src/Accounts/Registration/Tests.antt =====
-- Registrations at concrete inputs.
use recreation_test.Base.{
  ℕ, ◌≡◌, refl, [], ◌∷◌, none, inr, bytes, lookup, insert, string_eq, ok, arith,
}
use recreation_test.Base.Int.{pos}
use recreation_test.Base.Decimal.{decimal}
use recreation_test.Accounts.Tests.{Keys, key_value, list_redis, list_redis-IsRedis}
use recreation_test.Accounts.Ids.{account_id_key}
use recreation_test.Accounts.Documents.{occurrences}
use recreation_test.Accounts.Users.{Account}
use recreation_test.Accounts.Runs.{listed, all_of}
use recreation_test.Accounts.Registration.{
  fine, lost, Fates, wei_xin, RegisterParams, RegisterResponse, call_incr, call_exists,
  next_account_id, new_account, save_account, with_id, wx_register, respond, register,
}
use recreation_test.Accounts.Registration.Numbers.{IsNumbered, IsAtomic, register-IsNumbered}

abbrev pub all_fine : Fates
all_fine = record { of_exists = fine; of_set = fine; of_incr = fine }

abbrev pub by_we_chat : RegisterParams
by_we_chat = record { account = bytes "w"; password = []; login_platform = wei_xin; sms_code = [] }

abbrev pub at_number : ℕ → Keys
at_number n = (account_id_key, n) ∷ []

abbrev pub member : ℕ → Account
member n = new_account (bytes "w") (pos 0) (decimal n)

abbrev pub answer : ℕ → RegisterResponse
answer n = record { uid = decimal n; role_list = none }

pub registered_7 :
    register list_redis listed all_fine (pos 0) by_we_chat (at_number 6) []
    ≡ (ok (answer 7), at_number 7, member 7 ∷ [])
unfolding register wx_register next_account_id call_exists call_incr with_id save_account respond
    new_account lookup insert
registered_7 = refl

registered_8 :
    register list_redis listed all_fine (pos 9) by_we_chat (at_number 7) (member 7 ∷ [])
    ≡ (ok (answer 8), at_number 8, member 7 ∷ new_account (bytes "w") (pos 9) (decimal 8) ∷ [])
unfolding register wx_register next_account_id call_exists call_incr with_id save_account respond
    new_account lookup insert
registered_8 = refl

pub none_yet : IsNumbered key_value (all_of {D = Account}) (at_number 6) []
unfolding lookup occurrences
none_yet = record { last = 6; stored = refl; given = tt; distinct = λ v. omega arith }

listed-IsAtomic : IsAtomic (listed {D = Account}) all_of
listed-IsAtomic ac t = inr refl

register-IsNumbered_example : IsNumbered key_value (all_of {D = Account}) (at_number 7) []
unfolding register wx_register next_account_id call_exists call_incr with_id lookup insert
register-IsNumbered_example =
    register-IsNumbered list_redis listed key_value all_of (record all_fine { of_incr = lost })
      (pos 0) by_we_chat (at_number 6) [] list_redis-IsRedis listed-IsAtomic none_yet
