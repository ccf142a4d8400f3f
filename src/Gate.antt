-- ===== src/Gate.antt =====
-- gate/api/user.go: the handler that registers a user, with framework/msError, which takes the errors of
-- the user service through gRPC, and common/result. Parameters: the binding of the request, the status of
-- gRPC, with what the network does to the call, and the signature of the token; the reply is what the
-- handler answers under its JSON. A code is a natural number. The service is Accounts/Registration.
pub mod Registering
pub mod Tokens
pub mod Cors
mod Tests
use recreation_test.Base.{
  ℕ, ◌%◌, ◌^◌, ◌<◌, ◌≡◌, Bool, if◌then◌else◌, List, [], ◌∷◌, Option, none, some, Str, Outcome, ok,
  err, panic,
}
use recreation_test.Base.Int.{ℤ}
use recreation_test.Jwt.{Claim, generate_claims}
use recreation_test.Accounts.Ids.{Redis}
use recreation_test.Accounts.Documents.{Collection}
use recreation_test.Accounts.Users.{
  Account, BizError, sql_error, phone_already_bind, request_data_error,
}
use recreation_test.Accounts.Registration.{
  Fate, fine, refused, lost, Fates, RegisterParams, RegisterResponse, register,
}

pub record MsError : Type 0 where
  pub code : ℕ
  pub text : Str

-- "请求失败", and the errors of `biz` that the services give: "请求数据错误", "数据库操作错误" and
-- "该手机号已被绑定，无法重复绑定".
abbrev pub fail : MsError
fail = record {
  code = 1;
  text = 0xE8 ∷ 0xAF ∷ 0xB7 ∷ 0xE6 ∷ 0xB1 ∷ 0x82 ∷ 0xE5 ∷ 0xA4 ∷ 0xB1 ∷ 0xE8 ∷ 0xB4 ∷ 0xA5 ∷ [];
}

unfoldable pub biz_error : BizError → MsError
biz_error request_data_error = record {
  code = 2;
  text =
      0xE8 ∷ 0xAF ∷ 0xB7 ∷ 0xE6 ∷ 0xB1 ∷ 0x82 ∷ 0xE6 ∷ 0x95 ∷ 0xB0 ∷ 0xE6 ∷ 0x8D ∷ 0xAE ∷ 0xE9
      ∷ 0x94 ∷ 0x99 ∷ 0xE8 ∷ 0xAF ∷ 0xAF ∷ [];
}
biz_error sql_error = record {
  code = 3;
  text =
      0xE6 ∷ 0x95 ∷ 0xB0 ∷ 0xE6 ∷ 0x8D ∷ 0xAE ∷ 0xE5 ∷ 0xBA ∷ 0x93 ∷ 0xE6 ∷ 0x93 ∷ 0x8D ∷ 0xE4
      ∷ 0xBD ∷ 0x9C ∷ 0xE9 ∷ 0x94 ∷ 0x99 ∷ 0xE8 ∷ 0xAF ∷ 0xAF ∷ [];
}
biz_error phone_already_bind = record {
  code = 106;
  text =
      0xE8 ∷ 0xAF ∷ 0xA5 ∷ 0xE6 ∷ 0x89 ∷ 0x8B ∷ 0xE6 ∷ 0x9C ∷ 0xBA ∷ 0xE5 ∷ 0x8F ∷ 0xB7 ∷ 0xE5
      ∷ 0xB7 ∷ 0xB2 ∷ 0xE8 ∷ 0xA2 ∷ 0xAB ∷ 0xE7 ∷ 0xBB ∷ 0x91 ∷ 0xE5 ∷ 0xAE ∷ 0x9A ∷ 0xEF ∷ 0xBC
      ∷ 0x8C ∷ 0xE6 ∷ 0x97 ∷ 0xA0 ∷ 0xE6 ∷ 0xB3 ∷ 0x95 ∷ 0xE9 ∷ 0x87 ∷ 0x8D ∷ 0xE5 ∷ 0xA4 ∷ 0x8D
      ∷ 0xE7 ∷ 0xBB ∷ 0x91 ∷ 0xE5 ∷ 0xAE ∷ 0x9A ∷ [];
}

-- `status.Error` and `status.FromError`, of which the latter gives the code and the message.
pub record Status {ℓ} (E : Type ℓ) : Type ℓ where
  pub error : ℕ → Str → E
  pub from_error : E → ℕ × Str

-- An error with a code of 32 bits other than `codes.OK` keeps its code and its message.
pub record IsStatus {ℓ} {E : Type ℓ} (status : Status E) : Type ℓ where
  pub from_error_lem :
      (code : ℕ) (text : Str)
      → 0 < code
      → code < 2 ^ 32
      → status.from_error (status.error code text) ≡ (code, text)

module _ {ℓ} {E : Type ℓ} (status : Status E) where
  unfoldable pub grpc_error : MsError → E
  grpc_error e = status.error (e.code % 2 ^ 32) e.text

  unfoldable pub to_error : E → MsError
  to_error e = let (code, text) = status.from_error e in record { code = code; text = text }

  -- What a call of the service comes back with.
  unfoldable pub over_grpc : Outcome BizError RegisterResponse → Outcome E RegisterResponse
  over_grpc (ok resp) = ok resp
  over_grpc (err e) = err (grpc_error (biz_error e))
  over_grpc panic = panic

-- The answer of the handler: `Fail`, or `Success` with the token; the address of the connector is constant.
pub data Reply : Type 0 where
  failure : MsError → Reply
  success : Str → Reply

unfoldable pub with_token : Option Str → Reply
with_token none = failure fail
with_token (some token) = success token

-- The configuration of the tokens.
pub record JwtConf : Type 0 where
  pub secret : Str
  pub exp : ℕ

abbrev pub roles_of : Option (List Str) → List Str
roles_of none = []
roles_of (some roles) = roles

module _ {ℓ} {E S T : Type ℓ} (status : Status E) (sign : List (Str × Claim) → Str → Option Str)
    (redis : Redis S) (accounts : Collection Account T) (conf : JwtConf) where
  -- The call over the network, which is fine, fails, or loses the answer.
  unfoldable pub call_register :
      Fate → E → Fates → ℤ → RegisterParams → S → T → Outcome E RegisterResponse × S × T
  call_register fine down fates now req s t =
      let (r, s', t') = register redis accounts fates now req s t in (over_grpc status r, s', t')
  call_register refused down fates now req s t = (err down, s, t)
  call_register lost down fates now req s t =
      let (r, s', t') = register redis accounts fates now req s t in (err down, s', t')

  unfoldable pub on_response : RegisterResponse → Reply
  on_response resp = elim resp.uid [
    | [] ↦ failure (biz_error sql_error)
    | c ∷ uid ↦
        with_token (sign (generate_claims resp.uid conf.exp (roles_of resp.role_list)) conf.secret)
  ]

  unfoldable pub on_answer : Outcome E RegisterResponse → Option Reply
  on_answer (ok resp) = some (on_response resp)
  on_answer (err e) = some (failure (to_error status e))
  on_answer panic = none

  -- The handler: its reply, or `none` if it panics.
  unfoldable pub register_handler :
      (List ℕ → Option RegisterParams)
      → Fate
      → E
      → Fates
      → ℤ
      → List ℕ
      → S
      → T
      → Option Reply × S × T
  register_handler should_bind link down fates now body s t = elim (should_bind body) [
    | none ↦ (some (failure (biz_error request_data_error)), s, t)
    | some req ↦
        let (r, s', t') = call_register link down fates now req s t in (on_answer r, s', t')
  ]
