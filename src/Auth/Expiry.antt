-- ===== src/Auth/Expiry.antt =====
-- Who gets past the interceptor.
use recreation_test.Base.{
  ℕ, ◌+◌, ◌≤◌, ◌<◌, ◌≡◌, ◌≢◌, inl, inr, refl, false, List, [], ◌∷◌, ◌++◌, none, some, Str, str_eq,
  str_eq_iff, bytes, arith, Outcome, ok, err, panic, ◌>>=◌, Option-cases,
}
use recreation_test.Auth.{
  InternalCertification, AuthError, unauthenticated, validity, save_internal_certification,
  find_internal_certification_by_client_id, first_value, get_client_credentials_from_meta,
  check_credential, validate_service_credential, save_method, with_credentials, auth,
}

found_id :
    (store : List InternalCertification) (client_id : Str) (ic : InternalCertification)
    → find_internal_certification_by_client_id store client_id ≡ some ic
    → ic.client_id ≡ client_id
unfolding find_internal_certification_by_client_id
found_id [] client_id ic e = absurd (cc)
found_id (x ∷ store) client_id ic e =
    ground (arith, str_eq_iff x.client_id client_id, found_id store client_id ic)

found_saved :
    (store : List InternalCertification) (client_id : Str) (ic : InternalCertification)
    → find_internal_certification_by_client_id store client_id ≡ none
    → ic.client_id ≡ client_id
    → find_internal_certification_by_client_id (store ++ (ic ∷ [])) client_id ≡ some ic
unfolding find_internal_certification_by_client_id
found_saved [] client_id ic fresh e = ground (arith, str_eq_iff ic.client_id client_id)
found_saved (x ∷ store) client_id ic fresh e = ground (arith, found_saved store client_id ic)

check_accepts :
    (now : ℕ) (client_id client_secret : Str) (ic : InternalCertification)
    → check_credential now client_id client_secret ic ≡ ok tt
    → (ic.client_secret ≡ client_secret) × (ic.expiration_time ≤ now)
unfolding check_credential
check_accepts now client_id client_secret ic e =
    (ground (arith, str_eq_iff client_secret ic.client_secret), ground arith)

-- A stored credential with this id and secret has expired.
abbrev pub HasExpired : List InternalCertification → ℕ → Str → Str → Type 0
HasExpired store now client_id client_secret =
    (ic : InternalCertification) × (find_internal_certification_by_client_id store client_id
      ≡ some ic)
    × (ic.client_secret ≡ client_secret)
    × (ic.expiration_time ≤ now)

validate-HasExpired :
    (store : List InternalCertification) (now : ℕ) (client_id client_secret : Str)
    → validate_service_credential store now client_id client_secret ≡ ok tt
    → HasExpired store now client_id client_secret
unfolding validate_service_credential
validate-HasExpired store now client_id client_secret e =
    elim (Option-cases (find_internal_certification_by_client_id store client_id)) [
      | inl unknown ↦ absurd (ground (arith, unknown))
      | inr (ic, found) ↦
          let (secret, expired) =
            check_accepts now client_id client_secret ic (ground (arith, found)) in
          (ic, found, secret, expired)
    ]

bind-ok {ℓ} :
    {R : Type ℓ} (v : Outcome AuthError (Unit {0})) (r : R)
    → (v >>= (λ valid. ok r)) ≡ ok r
    → v ≡ ok tt
bind-ok (ok tt) r e = refl
bind-ok (err x) r e = absurd (cc)
bind-ok panic r e = absurd (cc)

-- Whoever is let through to a method other than the exempt one has named a stored credential with its
-- secret, and that credential has expired.
pub auth-HasExpired {ℓ} :
    {R : Type ℓ} (store : List InternalCertification) (now : ℕ) (full_method : Str)
    (md : List (Str × List Str)) (handler : R)
    → full_method ≢ save_method
    → auth store now full_method (some md) handler ≡ ok handler
    → HasExpired store now
        (first_value md (bytes "client_id"))
        (first_value md (bytes "client_secret"))
unfolding auth with_credentials get_client_credentials_from_meta
auth-HasExpired store now full_method md handler h e =
    let id = first_value md (bytes "client_id") in
    let secret = first_value md (bytes "client_secret") in
    let other : str_eq full_method save_method ≡ false =
      ground (arith, str_eq_iff full_method save_method) in
    validate-HasExpired store now id secret
      (bind-ok (validate_service_credential store now id secret) handler (rw other at e))

-- A credential that was just saved is refused until its thousand days are over, with the right id and
-- secret too, and with it every method but the exempt one.
pub auth-save :
    (store : List InternalCertification) (hash : Str → Str) (saved now : ℕ) (client_id : Str)
    → find_internal_certification_by_client_id store client_id ≡ none
    → now < saved + validity
    → validate_service_credential
        (save_internal_certification hash saved client_id store)
        now
        client_id
        (hash client_id)
      ≡ err unauthenticated
unfolding validate_service_credential save_internal_certification check_credential
auth-save store hash saved now client_id fresh early =
    let ic : InternalCertification = record {
      client_id = client_id;
      client_secret = hash client_id;
      expiration_time = saved + validity;
    } in
    ground (arith, found_saved store client_id ic fresh refl)
