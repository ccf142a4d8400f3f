-- ===== src/Auth/Tests.antt =====
-- The interceptor at concrete inputs.
use recreation_test.Base.{
  ℕ, ◌≡◌, ◌≢◌, refl, List, [], ◌∷◌, none, some, Str, bytes, ok, lookup, string_eq,
}
use recreation_test.Auth.{
  InternalCertification, find_internal_certification_by_client_id, first_value,
  get_client_credentials_from_meta, check_credential, validate_service_credential, save_method,
  with_credentials, auth,
}
use recreation_test.Auth.Expiry.{HasExpired, auth-HasExpired}

abbrev old : InternalCertification
old = record { client_id = bytes "hall"; client_secret = bytes "s"; expiration_time = 9 }

abbrev metadata : List (Str × List Str)
metadata = (bytes "client_id", bytes "hall" ∷ []) ∷ (bytes "client_secret", bytes "s" ∷ []) ∷ []

let_through : auth {R = ℕ} (old ∷ []) 10 (bytes "/Other") (some metadata) 5 ≡ ok 5
unfolding auth with_credentials get_client_credentials_from_meta first_value lookup
    validate_service_credential find_internal_certification_by_client_id check_credential
let_through = refl

other_method : bytes "/Other" ≢ save_method
other_method e = cc

auth-HasExpired_example :
    HasExpired
      (old ∷ [])
      10
      (first_value metadata (bytes "client_id"))
      (first_value metadata (bytes "client_secret"))
auth-HasExpired_example =
    auth-HasExpired (old ∷ []) 10 (bytes "/Other") metadata 5 other_method let_through

no_gate : find_internal_certification_by_client_id (old ∷ []) (bytes "gate") ≡ none
unfolding find_internal_certification_by_client_id
no_gate = refl
