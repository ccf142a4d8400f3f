-- ===== src/Jwt/Roles.antt =====
-- Claims that were decoded from JSON.
use recreation_test.Base.{
  ℕ, ◌≡◌, ◌≢◌, refl, ◌⊎◌, inl, inr, Bool, List, Option, none, some, Str, bytes, lookup, string_eq,
  Outcome, ok, err, panic, Option-cases, Bool-cases,
}
use recreation_test.Jwt.{
  Claim, text, number, strings, other, TokenData, TokenError, as_text, as_number, as_strings,
  of_claims, token_data, parse_token, request_data_error, token_info_error, EntryReq, enter, entry,
}

-- No claim is a list of strings by its type: the JSON decoder makes lists of any values.
abbrev pub IsDecoded : List (Str × Claim) → Type 0
IsDecoded claims = (key : Str) (l : List Str) → lookup key claims ≢ some (strings l)

-- The result is an error.
abbrev pub IsRefused {ℓ} : {A : Type ℓ} → Outcome TokenError A → Type 0
IsRefused (ok a) = ⊥
IsRefused (err e) = Unit {0}
IsRefused panic = ⊥

no_roles : (o : Option Claim) → ((l : List Str) → o ≢ some (strings l)) → as_strings o ≡ none
unfolding as_strings
no_roles none h = refl
no_roles (some (text s)) h = refl
no_roles (some (number n)) h = refl
no_roles (some (strings l)) h = absurd (h l refl)
no_roles (some other) h = refl

of_claims-IsRefused :
    (u : Option Str) (x : Option ℕ) (r : Option (List Str)) → r ≡ none → IsRefused (of_claims u x r)
unfolding of_claims
of_claims-IsRefused none x r e = tt
of_claims-IsRefused (some u) none r e = tt
of_claims-IsRefused (some u) (some x) none e = tt
of_claims-IsRefused (some u) (some x) (some r) e = absurd (cc)

token_data-IsRefused :
    (claims : List (Str × Claim)) → IsDecoded claims → IsRefused (token_data claims)
unfolding token_data
token_data-IsRefused claims d =
    of_claims-IsRefused (as_text (lookup (bytes "userId") claims))
      (as_number (lookup (bytes "expireAt") claims)) (as_strings (lookup (bytes "roles") claims))
      (no_roles (lookup (bytes "roles") claims) (d (bytes "roles")))

enter-refused {ℓ κ} :
    {I : Type ℓ} {U : Type κ} (find_and_save_user : Str → I → Option U)
    (is_blocked_account : U → Bool) (with_agent : U → U) (uid : Str) (info : I)
    (t : Outcome TokenError TokenData)
    → IsRefused t
    → enter find_and_save_user is_blocked_account with_agent uid info t ≡ (token_info_error, uid)
unfolding enter
enter-refused find_and_save_user is_blocked_account with_agent uid info (ok t) h = absurd h
enter-refused find_and_save_user is_blocked_account with_agent uid info (err e) h = refl
enter-refused find_and_save_user is_blocked_account with_agent uid info panic h = refl

module _ (jwt_parse : Str → Str → Option (List (Str × Claim) × Bool))
    (decoded : (token secret : Str) (claims : List (Str × Claim)) (valid : Bool)
      → jwt_parse token secret ≡ some (claims, valid)
      → IsDecoded claims) where
  parse_token-IsRefused : (token secret : Str) → IsRefused (parse_token jwt_parse token secret)
  unfolding parse_token
  parse_token-IsRefused token secret = elim (Option-cases (jwt_parse token secret)) [
    | inl failed ↦ rw (failed, parse_token) tt
    | inr ((claims, valid), found) ↦
        rw (found, parse_token)
          (elim (Bool-cases valid) [
            | inl fine ↦
                rw fine (token_data-IsRefused claims (decoded token secret claims valid found))
            | inr bad ↦ rw bad tt
          ])
  ]

  -- If the decoder of the JWT library makes no list of strings of a claim, as the JSON decoder does,
  -- `ParseToken` refuses every token, and the entry handler answers every request with an error of the
  -- request or of its token, and never sets the user id of the session.
  pub entry-refused {ℓ κ} :
      {I : Type ℓ} {U : Type κ} (decode : List ℕ → Option (EntryReq I))
      (find_and_save_user : Str → I → Option U) (is_blocked_account : U → Bool) (with_agent : U → U)
      (secret uid : Str) (body : List ℕ)
      → let answer =
          entry find_and_save_user is_blocked_account with_agent jwt_parse decode secret uid body in
        (answer ≡ (request_data_error, uid)) ⊎ (answer ≡ (token_info_error, uid))
  unfolding entry
  entry-refused decode find_and_save_user is_blocked_account with_agent secret uid body =
      elim (Option-cases (decode body)) [
        | inl failed ↦ inl (rw (failed, entry) refl)
        | inr (req, found) ↦ inr (
            rw (found, entry)
              (enter-refused find_and_save_user is_blocked_account with_agent uid req.user_info
                (parse_token jwt_parse req.token secret) (parse_token-IsRefused req.token secret)))
      ]
