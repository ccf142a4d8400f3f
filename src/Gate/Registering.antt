-- ===== src/Gate/Registering.antt =====
-- What a client is told of its registration.
use recreation_test.Base.{
  ℕ, ◌≡◌, ◌≢◌, refl, sym, ap, ◌∙◌, true, false, List, [], ◌∷◌, Option, none, some, Str, Outcome, ok,
  err, panic, arith,
}
use recreation_test.Base.Int.{ℤ}
use recreation_test.Jwt.{Claim, generate_claims}
use recreation_test.Accounts.Ids.{Redis}
use recreation_test.Accounts.Documents.{Collection}
use recreation_test.Accounts.Users.{
  Account, BizError, sql_error, phone_already_bind, request_data_error,
}
use recreation_test.Accounts.Registration.{
  fine, Fates, RegisterParams, RegisterResponse, wei_xin, register,
}
use recreation_test.Accounts.Registration.Members.{register_other}
use recreation_test.Gate.{
  MsError, biz_error, Status, IsStatus, grpc_error, to_error, Reply, failure, success, JwtConf,
  roles_of, over_grpc, call_register, with_token, on_response, on_answer, register_handler,
}

abbrev of_pair : ℕ × Str → MsError
of_pair (code, text) = record { code = code; text = text }

-- An error of a service is the same behind gRPC.
to_error-grpc_error {ℓ} :
    {E : Type ℓ} (status : Status E) (e : BizError)
    → IsStatus status
    → to_error status (grpc_error status (biz_error e)) ≡ biz_error e
unfolding to_error grpc_error biz_error
to_error-grpc_error status request_data_error laws =
    ap of_pair
      (laws.from_error_lem 2 (biz_error request_data_error).text (omega arith) (omega arith))
to_error-grpc_error status sql_error laws =
    ap of_pair (laws.from_error_lem 3 (biz_error sql_error).text (omega arith) (omega arith))
to_error-grpc_error status phone_already_bind laws =
    ap of_pair
      (laws.from_error_lem 106 (biz_error phone_already_bind).text (omega arith) (omega arith))

token_of : (o : Option Str) (token : Str) → with_token o ≡ success token → o ≡ some token
unfolding with_token
token_of none token e = absurd (cc)
token_of (some t) token e = cc

pub contradiction : true ≡ false → ⊥
contradiction e = cc

pub no_token : (m : MsError) (token : Str) → failure m ≡ success token → ⊥
no_token m token e = cc

abbrev pub reply_or : Reply → Option Reply → Reply
reply_or r none = r
reply_or r (some x) = x

-- The reply of the handler when the call arrives and its answer comes back.
module _ {ℓ} {E S T : Type ℓ} (status : Status E) (sign : List (Str × Claim) → Str → Option Str)
    (redis : Redis S) (accounts : Collection Account T) (conf : JwtConf)
    (should_bind : List ℕ → Option RegisterParams) (down : E) (fates : Fates) (now : ℤ)
    (body : List ℕ) (req : RegisterParams) (s : S) (t : T) where
  abbrev pub replied : Option Reply × S × T
  replied =
      register_handler status sign redis accounts conf should_bind fine down fates now body s t

  pub reached :
      (r : Outcome BizError RegisterResponse) (s' : S) (t' : T)
      → should_bind body ≡ some req
      → register redis accounts fates now req s t ≡ (r, s', t')
      → replied ≡ (on_answer status sign redis accounts conf (over_grpc status r), s', t')
  unfolding register_handler call_register
  reached r s' t' bound e = rw (bound, register_handler) (rw (e, call_register) refl)

  -- Whatever error the service gives, the client is told that error, with its code and its text, and the
  -- stores are as the service left them. The call arrives and its answer comes back.
  pub register_handler_told :
      (e : BizError) (s' : S) (t' : T)
      → IsStatus status
      → should_bind body ≡ some req
      → register redis accounts fates now req s t ≡ (err e, s', t')
      → replied ≡ (some (failure (biz_error e)), s', t')
  unfolding on_answer over_grpc
  register_handler_told e s' t' laws bound failed =
      reached (err e) s' t' bound failed
      ∙ ap (λ (m : MsError). (some (failure m), s', t')) (to_error-grpc_error status e laws)

  pub told_other :
      should_bind body ≡ some req
      → req.login_platform ≢ wei_xin
      → replied ≡ (some (failure (biz_error sql_error)), s, t)
  unfolding on_answer over_grpc on_response
  told_other bound other =
      reached (ok (record { uid = []; role_list = none })) s t bound
        (register_other redis accounts fates now req s t other)

  signed :
      (resp : RegisterResponse) (token uid : Str)
      → resp.uid ≡ uid
      → on_response status sign redis accounts conf resp ≡ success token
      → sign (generate_claims resp.uid conf.exp (roles_of resp.role_list)) conf.secret ≡ some token
  unfolding on_response
  signed resp token [] none_there e =
      absurd (no_token (biz_error sql_error) token (rw (none_there, on_response) at e))
  signed resp token (c ∷ uid) there e =
      let signature =
        sign (generate_claims resp.uid conf.exp (roles_of resp.role_list)) conf.secret in
      token_of signature token (rw (there, on_response) at e)

  -- A reply with a token for a new account.
  told_token :
      (resp : RegisterResponse) (token : Str) (s' : S) (t' : T)
      → should_bind body ≡ some req
      → register redis accounts fates now req s t ≡ (ok resp, s', t')
      → replied ≡ (some (success token), s', t')
      → sign (generate_claims resp.uid conf.exp (roles_of resp.role_list)) conf.secret ≡ some token
  unfolding on_answer over_grpc on_response with_token
  told_token resp token s' t' bound e answered = signed resp token resp.uid refl (
      ap (λ (x : Option Reply × S × T). reply_or (success token) x.0)
        (sym (reached (ok resp) s' t' bound e) ∙ answered))

  -- The cases of a call that was answered with success.
  pub token_lem :
      (r : Outcome BizError RegisterResponse) (token : Str) (s' s'' : S) (t' t'' : T)
      → IsStatus status
      → should_bind body ≡ some req
      → register redis accounts fates now req s t ≡ (r, s'', t'')
      → replied ≡ (some (success token), s', t')
      → (resp : RegisterResponse) × (register redis accounts fates now req s t ≡ (ok resp, s', t'))
        × (sign (generate_claims resp.uid conf.exp (roles_of resp.role_list)) conf.secret
            ≡ some token)
  unfolding on_answer over_grpc
  token_lem (ok resp) token s' s'' t' t'' laws bound e answered =
      let whole = sym (reached (ok resp) s'' t'' bound e) ∙ answered in
      let there : register redis accounts fates now req s t ≡ (ok resp, s', t') =
        e ∙ ap (λ (x : Option Reply × S × T). (ok resp, x.1, x.2)) whole in
      (resp, there, told_token resp token s' t' bound there answered)
  token_lem (err x) token s' s'' t' t'' laws bound e answered = absurd (
      no_token (to_error status (grpc_error status (biz_error x))) token (
        ap (λ (y : Option Reply × S × T). reply_or (success token) y.0)
          (sym (reached (err x) s'' t'' bound e) ∙ answered)))
  token_lem panic token s' s'' t' t'' laws bound e answered = absurd (
      nothing
        (ap (λ (y : Option Reply × S × T). y.0) (sym (reached panic s'' t'' bound e) ∙ answered)))
    where
      nothing : none ≡ some (success token) → ⊥
      nothing p = cc
