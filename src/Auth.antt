-- ===== src/Auth.antt =====
-- common/interceptor/auth.go, with core/dao/internalCertification.go and
-- user/internal/service/InternalCertification.go: the credentials of internal clients. The collection of
-- the database is a list, to which a save adds and of which a query takes the first match; `hash` is
-- md5.BcryptHash. Times are numbers of nanoseconds; a handler is its result.
pub mod Expiry
mod Tests
use recreation_test.Base.{
  ℕ, ◌+◌, ◌*◌, Bool, true, false, ◌&&◌, ◌||◌, not, ltb, ◌==◌, if◌then◌else◌, List, [], ◌∷◌, ◌++◌,
  length, Option, none, some, Str, str_eq, bytes, lookup, string_eq, Outcome, ok, err, panic, ◌>>=◌,
}

pub record InternalCertification : Type 0 where
  pub client_id : Str
  pub client_secret : Str
  pub expiration_time : ℕ

pub data AuthError : Type 0 where
  unauthenticated not_incoming : AuthError

-- A thousand days.
abbrev pub validity : ℕ
validity = 1000 * 24 * 3_600_000_000_000

unfoldable pub save_internal_certification :
    (Str → Str) → ℕ → Str → List InternalCertification → List InternalCertification
save_internal_certification hash now client_id store =
    store
    ++ (record {
      client_id = client_id;
      client_secret = hash client_id;
      expiration_time = now + validity;
    }
        ∷ [])

unfoldable pub find_internal_certification_by_client_id :
    List InternalCertification → Str → Option InternalCertification
find_internal_certification_by_client_id [] client_id = none
find_internal_certification_by_client_id (ic ∷ store) client_id =
    if str_eq ic.client_id client_id
    then some ic
    else find_internal_certification_by_client_id store client_id

-- The first value under a key of the metadata, and the empty string for none.
unfoldable pub first_value : List (Str × List Str) → Str → Str
first_value md key = elim (lookup key md) as (λ o. Str) [
  | none ↦ []
  | some [] ↦ []
  | some (v ∷ vs) ↦ v
]

unfoldable pub get_client_credentials_from_meta : List (Str × List Str) → Str × Str
get_client_credentials_from_meta md =
    (first_value md (bytes "client_id"), first_value md (bytes "client_secret"))

-- The check of the credential that was found.
unfoldable pub check_credential :
    ℕ → Str → Str → InternalCertification → Outcome AuthError (Unit {0})
check_credential now client_id client_secret ic =
    if not (str_eq client_id ic.client_id)
      || (not (str_eq client_secret ic.client_secret) || ltb now ic.expiration_time)
    then err unauthenticated
    else ok tt

unfoldable pub validate_service_credential :
    List InternalCertification → ℕ → Str → Str → Outcome AuthError (Unit {0})
validate_service_credential store now client_id client_secret =
    let found =
      elim (find_internal_certification_by_client_id store client_id)
        as (λ o. Outcome AuthError (Unit {0})) [
          | none ↦ err unauthenticated
          | some ic ↦ check_credential now client_id client_secret ic
        ] in
    if (length client_id == 0) && (length client_secret == 0) then err unauthenticated else found

abbrev pub save_method : Str
save_method = bytes "/InternalCertificationService/SaveInternalCertification"

module _ {ℓ} {R : Type ℓ} where
  -- What both interceptors do for a context with or without metadata.
  unfoldable pub with_credentials :
      List InternalCertification → ℕ → Option (List (Str × List Str)) → R → Outcome AuthError R
  with_credentials store now none handler = err not_incoming
  with_credentials store now (some md) handler =
      validate_service_credential store now (get_client_credentials_from_meta md).0
        (get_client_credentials_from_meta md).1
      >>= (λ valid. ok handler)

  unfoldable pub stream_auth :
      List InternalCertification → ℕ → Option (List (Str × List Str)) → R → Outcome AuthError R
  stream_auth store now md handler = with_credentials store now md handler

  unfoldable pub auth :
      List InternalCertification
      → ℕ
      → Str
      → Option (List (Str × List Str))
      → R
      → Outcome AuthError R
  auth store now full_method md handler =
      let checked = with_credentials store now md handler in
      if str_eq full_method save_method then ok handler else checked
