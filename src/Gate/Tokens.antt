-- ===== src/Gate/Tokens.antt =====
-- Who gets a token.
use recreation_test.Base.{
  ℕ, ◌+◌, ◌≡◌, ◌≢◌, refl, sym, ap, ◌∙◌, ◌==◌, ==_iff, List, [], ◌∷◌, ◌++◌, Option, some, Str, ok,
  Bool-cases, inl, inr, arith,
}
use recreation_test.Base.Int.{ℤ}
use recreation_test.Base.Decimal.{decimal, read_digits, read_digits-decimal}
use recreation_test.Jwt.{Claim, generate_claims}
use recreation_test.Accounts.Ids.{Redis, IsRedis}
use recreation_test.Accounts.Documents.{Collection, IsCollection, occurrences}
use recreation_test.Accounts.Users.{Account, sql_error}
use recreation_test.Accounts.Registration.{
  fine, Fates, RegisterParams, RegisterResponse, wei_xin, register, new_account,
}
use recreation_test.Accounts.Registration.Numbers.{IsNumbered}
use recreation_test.Accounts.Registration.Members.{register_lem}
use recreation_test.Gate.{
  biz_error, Status, IsStatus, Reply, success, JwtConf, roles_of, over_grpc, with_token,
  on_response, on_answer, register_handler,
}
use recreation_test.Gate.Registering.{
  contradiction, no_token, reply_or, reached, told_other, token_lem,
}

decimal_positive : (n : ℕ) (uid : Str) → uid ≡ decimal (n + 1) → uid ≢ []
unfolding read_digits
decimal_positive n uid named e =
    let zero' : n + 1 ≡ 0 =
      sym (read_digits-decimal (n + 1)) ∙ ap (read_digits 0) (sym named ∙ e) in
    omega (arith, zero')

-- A client that gets a token is a new user: the token is for an id that no account has had, and an account
-- with that id and the WeChat account of the request has been stored. The call arrives and its answer comes
-- back, and the ids of the accounts are numbers up to the one in Redis.
pub register_handler_token {ℓ} :
    {E S T : Type ℓ} (status : Status E) (sign : List (Str × Claim) → Str → Option Str)
    (redis : Redis S) (accounts : Collection Account T) (conf : JwtConf)
    (should_bind : List ℕ → Option RegisterParams) (value : Str → S → Option ℕ)
    (documents : T → List Account) (down : E) (fates : Fates) (now : ℤ) (body : List ℕ)
    (req : RegisterParams) (s s' : S) (t t' : T) (token : Str)
    → IsStatus status
    → IsRedis redis value
    → IsCollection accounts documents
    → IsNumbered value documents s t
    → should_bind body ≡ some req
    → register_handler status sign redis accounts conf should_bind fine down fates now body s t
      ≡ (some (success token), s', t')
    → (resp : RegisterResponse) × (sign
          (generate_claims resp.uid conf.exp (roles_of resp.role_list))
          conf.secret
        ≡ some token)
      × (occurrences Account.uid resp.uid (documents t) ≡ 0)
      × (documents t' ≡ documents t ++ (new_account req.account now resp.uid ∷ []))
register_handler_token status sign redis accounts conf should_bind value documents down fates now
      body req s s' t t' token answers keys stores numbered bound e =
    let r = register redis accounts fates now req s t in
    let (resp, registered, signature) =
      token_lem status sign redis accounts conf should_bind down fates now body req s t r.0 token s'
        r.1 t' r.2 answers bound refl e in
    elim (Bool-cases (req.login_platform == wei_xin)) [
      | inr other ↦
          let refused' =
            told_other status sign redis accounts conf should_bind down fates now body req s t bound
              (λ same. contradiction (sym ((==_iff req.login_platform wei_xin).1 same) ∙ other)) in
          absurd (
            no_token (biz_error sql_error) token
              (ap (λ (y : Option Reply × _ × _). reply_or (success token) y.0) (sym refused' ∙ e)))
      | inl by ↦
          let (n, named, fresh, stored) =
            register_lem redis accounts value documents fates now req s s' t t' resp keys stores
              numbered ((==_iff req.login_platform wei_xin).0 by) registered in
          (resp, signature, fresh, stored)
    ]

-- A client of WeChat whose registration succeeds gets its token, if the token can be signed: the answer of the
-- service is never taken for an empty one. The call arrives and its answer comes back, and the ids of the
-- accounts are numbers up to the one in Redis.
pub register_handler_grants {ℓ} :
    {E S T : Type ℓ} (status : Status E) (sign : List (Str × Claim) → Str → Option Str)
    (redis : Redis S) (accounts : Collection Account T) (conf : JwtConf)
    (should_bind : List ℕ → Option RegisterParams) (value : Str → S → Option ℕ)
    (documents : T → List Account) (down : E) (fates : Fates) (now : ℤ) (body : List ℕ)
    (req : RegisterParams) (s s' : S) (t t' : T) (resp : RegisterResponse) (token : Str)
    → IsRedis redis value
    → IsCollection accounts documents
    → IsNumbered value documents s t
    → should_bind body ≡ some req
    → req.login_platform ≡ wei_xin
    → register redis accounts fates now req s t ≡ (ok resp, s', t')
    → sign (generate_claims resp.uid conf.exp (roles_of resp.role_list)) conf.secret ≡ some token
    → register_handler status sign redis accounts conf should_bind fine down fates now body s t
      ≡ (some (success token), s', t')
unfolding on_answer over_grpc on_response with_token
register_handler_grants status sign redis accounts conf should_bind value documents down fates now
      body req s s' t t' resp token keys stores numbered bound by registered signature =
    let (n, named, fresh, stored) =
      register_lem redis accounts value documents fates now req s s' t t' resp keys stores numbered
        by registered in
    reached status sign redis accounts conf should_bind down fates now body req s t (ok resp) s' t'
      bound registered
    ∙ ap (λ (r : Reply). (some r, s', t'))
        (granted resp.uid refl (decimal_positive n resp.uid named))
  where
    granted :
        (uid : Str)
        → resp.uid ≡ uid
        → uid ≢ []
        → on_response status sign redis accounts conf resp ≡ success token
    granted [] e h = absurd (h refl)
    granted (c ∷ uid) e h = rw (e, on_response) (ap with_token signature)
