-- ===== src/Accounts/Registration.antt =====
-- user/internal/service/account.go, with `SaveAccount` of core/dao/account.go and `NextAccountId` of
-- core/dao/redis.go as one request makes its calls while no other one is under way. Redis and MongoDB are
-- parameters, and so is what becomes of each call of Redis. The platform is a number of 32 bits.
pub mod Numbers
pub mod Members
pub mod Tests
use recreation_test.Base.{
  ℕ, ◌==◌, Bool, if◌then◌else◌, List, [], ◌∷◌, Option, none, some, Str, Outcome, ok, err, panic,
}
use recreation_test.Base.Int.{ℤ}
use recreation_test.Base.Decimal.{decimal}
use recreation_test.Accounts.Ids.{account_id_key, account_id_begin, Redis}
use recreation_test.Accounts.Documents.{Collection}
use recreation_test.Accounts.Users.{Account, BizError, sql_error}

-- A call of Redis succeeds, or fails without its effect or with it.
pub data Fate : Type 0 where
  fine refused lost : Fate

pub record Fates : Type 0 where
  pub of_exists : Fate
  pub of_set : Fate
  pub of_incr : Fate

-- `requests.WeiXin`.
abbrev pub wei_xin : ℕ
wei_xin = 2

pub record RegisterParams : Type 0 where
  pub account : Str
  pub password : Str
  pub login_platform : ℕ
  pub sms_code : Str

pub record RegisterResponse : Type 0 where
  pub uid : Str
  pub role_list : Option (List Str)

module _ {ℓ} {S : Type ℓ} (redis : Redis S) where
  -- The calls of `incr`, the last one first: the id, or `none` for an error.
  unfoldable pub call_incr : Fate → S → Option Str × S
  call_incr fine s = let (id, s') = redis.incr account_id_key s in (some (decimal id), s')
  call_incr refused s = (none, s)
  call_incr lost s = (none, (redis.incr account_id_key s).1)

  unfoldable pub call_set : Fates → Fate → S → Option Str × S
  call_set fates fine s = call_incr fates.of_incr (redis.set account_id_key account_id_begin s)
  call_set fates refused s = (none, s)
  call_set fates lost s = (none, redis.set account_id_key account_id_begin s)

  unfoldable pub call_exists : Fates → Fate → S → Option Str × S
  call_exists fates fine s =
      if redis.exists account_id_key s
      then call_incr fates.of_incr s
      else call_set fates fates.of_set s
  call_exists fates refused s = (none, s)
  call_exists fates lost s = (none, s)

  unfoldable pub next_account_id : Fates → S → Option Str × S
  next_account_id fates s = call_exists fates fates.of_exists s

unfoldable pub new_account : Str → ℤ → Str → Account
new_account wx_account now uid = record {
  uid = uid;
  account = [];
  password = [];
  phone_account = [];
  wx_account = wx_account;
  create_time = now;
  role_list = none;
}

unfoldable pub respond : Outcome BizError Account → Outcome BizError RegisterResponse
respond (ok ac) = ok (record { uid = ac.uid; role_list = ac.role_list })
respond (err e) = err e
respond panic = panic

module _ {ℓ} {S T : Type ℓ} (redis : Redis S) (accounts : Collection Account T) where
  -- `SaveAccount` of the account with its id.
  unfoldable pub save_account : Account → S → T → Outcome BizError Account × S × T
  save_account ac s t =
      let (done, t') = accounts.insert_one ac t in (if done then ok ac else err sql_error, s, t')

  unfoldable pub with_id :
      ℤ → RegisterParams → Option Str × S → T → Outcome BizError Account × S × T
  with_id now req (none, s) t = (err sql_error, s, t)
  with_id now req (some uid, s) t = save_account (new_account req.account now uid) s t

  unfoldable pub wx_register : Fates → ℤ → RegisterParams → S → T → Outcome BizError Account × S × T
  wx_register fates now req s t = with_id now req (next_account_id redis fates s) t

  unfoldable pub register :
      Fates → ℤ → RegisterParams → S → T → Outcome BizError RegisterResponse × S × T
  register fates now req s t =
      let (r, s', t') = wx_register fates now req s t in
      if req.login_platform == wei_xin
      then (respond r, s', t')
      else (ok (record { uid = []; role_list = none }), s, t)
