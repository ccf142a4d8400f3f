-- ===== src/Jwt.antt =====
-- common/jwts/jwt.go, and the entry handler of connector/handler. The JWT library is the parameter
-- `jwt_parse`: the claims, and whether the token is valid, or `none` for an error; the key function is its
-- own. A claim is a value of any Go type.
pub mod Roles
mod Tests
use recreation_test.Base.{
  ℕ, Bool, true, false, if◌then◌else◌, List, [], ◌∷◌, Option, none, some, Str, bytes, lookup,
  string_eq, Outcome, ok, err, panic, ◌>>=◌, or_err,
}

-- The dynamic type of a claim: a string, a number, a list of strings, or another, as a list of
-- any values is. A number is the integer that its conversion to `int64` gives.
pub data Claim : Type 0 where
  text : Str → Claim
  number : ℕ → Claim
  strings : List Str → Claim
  other : Claim

pub record TokenData : Type 0 where
  pub user_id : Str
  pub expire_at : ℕ
  pub role_list : List Str

pub data TokenError : Type 0 where
  parse_failed invalid_token invalid_user_id invalid_expire_at : TokenError

-- `v.(string)`, `v.(float64)` and `v.([]string)`; an absent claim is nil, which is none of them.
unfoldable pub as_text : Option Claim → Option Str
as_text (some (text s)) = some s
as_text other_claim = none

unfoldable pub as_number : Option Claim → Option ℕ
as_number (some (number n)) = some n
as_number other_claim = none

unfoldable pub as_strings : Option Claim → Option (List Str)
as_strings (some (strings l)) = some l
as_strings other_claim = none

-- What `ParseToken` makes of the claims of a valid token.
unfoldable pub of_claims : Option Str → Option ℕ → Option (List Str) → Outcome TokenError TokenData
of_claims claimed_id claimed_expiry claimed_roles = do
  user_id ← or_err invalid_user_id claimed_id
  expire_at ← or_err invalid_expire_at claimed_expiry
  role_list ← or_err invalid_expire_at claimed_roles
  ok (record { user_id = user_id; expire_at = expire_at; role_list = role_list })

unfoldable pub token_data : List (Str × Claim) → Outcome TokenError TokenData
token_data claims =
    of_claims (as_text (lookup (bytes "userId") claims))
      (as_number (lookup (bytes "expireAt") claims)) (as_strings (lookup (bytes "roles") claims))

-- The claims that `GenerateToken` signs.
unfoldable pub generate_claims : Str → ℕ → List Str → List (Str × Claim)
generate_claims user_id expiration roles =
    (bytes "userId", text user_id)
    ∷ (bytes "expireAt", number expiration)
    ∷ (bytes "roles", strings roles)
    ∷ []

module _ (jwt_parse : Str → Str → Option (List (Str × Claim) × Bool)) where
  unfoldable pub parse_token : Str → Str → Outcome TokenError TokenData
  parse_token token secret_key = elim (jwt_parse token secret_key) [
    | none ↦ err parse_failed
    | some (claims, valid) ↦ if valid then token_data claims else err invalid_token
  ]

-- What the entry handler answers with, and what it does to the session: its user id.
pub data EntryAnswer {ℓ} (U : Type ℓ) : Type ℓ where
  request_data_error token_info_error sql_error blocked_account : EntryAnswer U
  welcome : U → EntryAnswer U

pub record EntryReq {ℓ} (I : Type ℓ) : Type ℓ where
  pub token : Str
  pub user_info : I

-- `find_and_save_user` is the user service, which may fail, and `decode` below the JSON decoder.
module _ {ℓ κ} {I : Type ℓ} {U : Type κ} (find_and_save_user : Str → I → Option U)
    (is_blocked_account : U → Bool) (with_agent : U → U) where
  -- The user of a token, and the user id of the session.
  unfoldable pub enter_user : Str → TokenData → I → EntryAnswer U × Str
  enter_user uid data' info = elim (find_and_save_user data'.user_id info) [
    | none ↦ (sql_error, uid)
    | some user ↦
        if is_blocked_account user
        then (blocked_account, data'.user_id)
        else (welcome (with_agent user), data'.user_id)
  ]

  -- The part behind the check of the token.
  unfoldable pub enter : Str → I → Outcome TokenError TokenData → EntryAnswer U × Str
  unfolding enter_user
  enter uid info (ok data') = enter_user uid data' info
  enter uid info (err e) = (token_info_error, uid)
  enter uid info panic = (token_info_error, uid)

  unfoldable pub entry :
      (Str → Str → Option (List (Str × Claim) × Bool))
      → (List ℕ → Option (EntryReq I))
      → Str
      → Str
      → List ℕ
      → EntryAnswer U × Str
  entry jwt_parse decode secret uid body = elim (decode body) [
    | none ↦ (request_data_error, uid)
    | some req ↦ enter uid req.user_info (parse_token jwt_parse req.token secret)
  ]
