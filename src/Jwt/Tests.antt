-- ===== src/Jwt/Tests.antt =====
-- The entry handler at concrete inputs.
use recreation_test.Base.{
  ℕ, ◌≡◌, ◌⊎◌, Bool, true, false, List, [], ◌∷◌, Option, some, Str, bytes, lookup, string_eq,
}
use recreation_test.Jwt.{Claim, request_data_error, token_info_error, EntryReq, entry}
use recreation_test.Jwt.Roles.{IsDecoded, entry-refused}

-- A token of an empty claim set is valid, for every token and secret.
abbrev empty_claims : Str → Str → Option (List (Str × Claim) × Bool)
empty_claims token secret = some ([], true)

empty_claims-IsDecoded :
    (token secret : Str) (claims : List (Str × Claim)) (valid : Bool)
    → empty_claims token secret ≡ some (claims, valid)
    → IsDecoded claims
unfolding lookup
empty_claims-IsDecoded token secret [] valid e key l h = absurd (cc)
empty_claims-IsDecoded token secret (c ∷ claims) valid e key l h = absurd (cc)

abbrev any_request : List ℕ → Option (EntryReq ℕ)
any_request body = some (record { token = body; user_info = 1 })

abbrev known_user : Str → ℕ → Option ℕ
known_user uid info = some info

abbrev never_blocked : ℕ → Bool
never_blocked user = false

abbrev same_user : ℕ → ℕ
same_user user = user

entry-refused_example :
    (entry known_user never_blocked same_user empty_claims any_request
        (bytes "secret")
        (bytes "u")
        (bytes "t")
      ≡ (request_data_error, bytes "u"))
    ⊎ (entry known_user never_blocked same_user empty_claims any_request
          (bytes "secret")
          (bytes "u")
          (bytes "t")
        ≡ (token_info_error, bytes "u"))
entry-refused_example =
    entry-refused empty_claims empty_claims-IsDecoded any_request known_user never_blocked same_user
      (bytes "secret") (bytes "u") (bytes "t")
