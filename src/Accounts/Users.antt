-- ===== src/Accounts/Users.antt =====
-- core/service/user.go over core/dao/user.go and core/dao/account.go: the login of a user, the binding of a
-- phone, and the look-up of a user. Each call here runs alone. Of a user the entries of `InviteMsg` and
-- `UnionInfo` are parameters, as nothing here reads them, and the id that MongoDB gives is left out. The
-- value of `startGold`, truncated, is an argument, `none` where it is missing or no number. Text is UTF-8.
pub mod Logins
pub mod Phones
pub mod Updates
use recreation_test.Base.{
  ℕ, zero, suc, ◌≡◌, Bool, true, false, if◌then◌else◌, List, [], ◌∷◌, ◌++◌, Option, none, some, Str,
  bytes, str_eq, Outcome, ok, err, panic,
}
use recreation_test.Base.Int.{ℤ}
use recreation_test.Accounts.Documents.{DbError, db_error, Collection}

pub record UserInfo : Type 0 where
  pub nickname : Str
  pub avatar : Str
  pub sex : ℤ

pub record User (I U : Type 0) : Type 0 where
  pub uid : Str
  pub is_blocked_account : Bool
  pub location : Str
  pub frontend_id : Str
  pub room_id : Str
  pub is_agent : Bool
  pub real_name : Str
  pub mobile_phone : Str
  pub invite_msg : Option (List I)
  pub email_arr : Str
  pub gold : ℤ
  pub union_info : Option (List U)
  pub sex : ℤ
  pub create_time : ℤ
  pub last_login_time : ℤ
  pub last_login_ip : Str
  pub address : Str
  pub avatar_frame : Str
  pub nickname : Str
  pub avatar : Str
  pub sync_lock : ℤ

pub record Account : Type 0 where
  pub uid : Str
  pub account : Str
  pub password : Str
  pub phone_account : Str
  pub wx_account : Str
  pub create_time : ℤ
  pub role_list : Option (List Str)

pub data BizError : Type 0 where
  sql_error phone_already_bind request_data_error : BizError

-- `tool.Default` of a string.
unfoldable pub default : Str → Str → Str
default [] d = d
default (c ∷ v) d = c ∷ v

-- "码神".
abbrev pub no_name : Str
no_name = 0xE7 ∷ 0xA0 ∷ 0x81 ∷ 0xE7 ∷ 0xA5 ∷ 0x9E ∷ []

abbrev pub no_icon : Str
no_icon = bytes "Common/head_icon_default"

-- A user as the first login makes it; times are in milliseconds.
unfoldable pub new_user : {I U : Type 0} → ℤ → ℤ → Str → UserInfo → User I U
new_user gold now uid info = record {
  uid = uid;
  is_blocked_account = false;
  location = [];
  frontend_id = [];
  room_id = [];
  is_agent = false;
  real_name = [];
  mobile_phone = [];
  invite_msg = some [];
  email_arr = [];
  gold = gold;
  union_info = some [];
  sex = info.sex;
  create_time = now;
  last_login_time = now;
  last_login_ip = [];
  address = [];
  avatar_frame = [];
  nickname = default info.nickname (no_name ++ uid);
  avatar = default info.avatar no_icon;
  sync_lock = ℤ.pos 0;
}

module _ {I U : Type 0} where
  -- The filters of the queries.
  abbrev pub with_uid : Str → User I U → Bool
  with_uid uid u = str_eq u.uid uid

  abbrev pub with_mobile_phone : Str → User I U → Bool
  with_mobile_phone phone u = str_eq u.mobile_phone phone

  -- `if user.UnionInfo == nil`.
  unfoldable pub with_unions : User I U → User I U
  with_unions u = elim u.union_info [ none ↦ record u { union_info = some [] } | some unions ↦ u ]

abbrev pub account_with_uid : Str → Account → Bool
account_with_uid uid a = str_eq a.uid uid

abbrev pub with_phone_account : Str → Account → Bool
with_phone_account phone a = str_eq a.phone_account phone

module _ {ℓ} {I U : Type 0} {S : Type ℓ} (users : Collection (User I U) S) where
  -- `userDao.FindUserByUid` and `FindUserByPhone`.
  unfoldable pub find_user_by_uid : Str → S → Outcome DbError (Option (User I U))
  find_user_by_uid uid s = users.find_one (with_uid uid) s

  unfoldable pub find_user_by_phone : Str → S → Outcome DbError (Option (User I U))
  find_user_by_phone phone s = users.find_one (with_mobile_phone phone) s

  unfoldable pub insert_user : User I U → S → Outcome DbError (User I U) × S
  insert_user u s =
      let (done, s') = users.insert_one u s in
      (if done then ok (with_unions u) else err db_error, s')

  -- The branch of a user that is not there.
  unfoldable pub save_user : Option ℤ → ℤ → Str → UserInfo → S → Outcome DbError (User I U) × S
  save_user none now uid info s = (panic, s)
  save_user (some gold) now uid info s = insert_user (new_user gold now uid info) s

  unfoldable pub find_and_save_user_by_uid :
      Option ℤ → ℤ → Str → UserInfo → S → Outcome DbError (User I U) × S
  find_and_save_user_by_uid start_gold now uid info s = elim (find_user_by_uid uid s) [
    | ok none ↦ save_user start_gold now uid info s
    | ok (some u) ↦ (ok (with_unions u), s)
    | err e ↦ (err e, s)
    | panic ↦ (panic, s)
  ]

  unfoldable pub or_sql_error :
      Outcome DbError (Option (User I U)) → Outcome BizError (Option (User I U))
  or_sql_error (ok u) = ok u
  or_sql_error (err e) = err sql_error
  or_sql_error panic = panic

  unfoldable pub get_user_data : Str → Str → S → Outcome BizError (Option (User I U))
  get_user_data phone (c ∷ uid) s = or_sql_error (find_user_by_uid (c ∷ uid) s)
  get_user_data (c ∷ phone) [] s = or_sql_error (find_user_by_phone (c ∷ phone) s)
  get_user_data [] [] s = err request_data_error

module _ {ℓ} {I U : Type 0} {S : Type ℓ} {T : Type ℓ} (accounts : Collection Account S)
    (users : Collection (User I U) T) where
  -- `UpdatePhone` of the two collections.
  unfoldable pub update_phone_account : Str → Str → S → Bool × S
  update_phone_account uid phone s =
      accounts.update_one (account_with_uid uid) (λ a. record a { phone_account = phone }) s

  unfoldable pub update_mobile_phone : Str → Str → T → Bool × T
  update_mobile_phone uid phone t =
      users.update_one (with_uid uid) (λ u. record u { mobile_phone = phone }) t

  -- The writes of `BindPhone`.
  unfoldable pub write_phone : Str → Str → S → T → Outcome BizError (Unit {0}) × S × T
  write_phone uid phone s t =
      let (account_done, s') = update_phone_account uid phone s in
      let (user_done, t') = update_mobile_phone uid phone t in
      if account_done
      then (if user_done then ok tt else err sql_error, s', t')
      else (err sql_error, s', t)

  unfoldable pub bind_phone : Str → Str → S → T → Outcome BizError (Unit {0}) × S × T
  bind_phone uid phone s t = elim (accounts.find_one (with_phone_account phone) s) [
    | ok none ↦ write_phone uid phone s t
    | ok (some a) ↦ (err phone_already_bind, s, t)
    | err e ↦ (err sql_error, s, t)
    | panic ↦ (panic, s, t)
  ]
