-- ===== src/Accounts/Registration/Members.antt =====
-- What a registration adds.
use mathlib.Core.Path.{subst}
use mathlib.Core.List.{append_assoc}
use recreation_test.Base.{
  ℕ, ◌+◌, ◌≡◌, ◌≢◌, inl, inr, sym, ap, ◌∙◌, ◌==◌, Bool, true, false, if◌then◌else◌, List, [], ◌∷◌,
  ◌++◌, Option, none, some, Str, str_eq, str_eq_iff, Outcome, ok, err, panic, Bool-cases, ==_iff,
  arith,
}
use recreation_test.Base.Int.{ℤ}
use recreation_test.Base.Decimal.{decimal}
use recreation_test.Accounts.Ids.{Redis, IsRedis}
use recreation_test.Accounts.Documents.{Collection, IsCollection, occurrences, occurrences-append}
use recreation_test.Accounts.Users.{Account, BizError, sql_error}
use recreation_test.Accounts.Registration.{
  Fates, wei_xin, RegisterParams, RegisterResponse, call_exists, next_account_id, new_account,
  save_account, with_id, wx_register, respond, register,
}
use recreation_test.Accounts.Registration.Numbers.{
  IsNumbered, IsAtomic, Next, unused, call_exists-Next, register-IsNumbered,
}

present :
    (v : Str) (acs : List Account) (ac : Account)
    → ac.uid ≡ v
    → occurrences Account.uid v (acs ++ (ac ∷ [])) ≢ 0
present v acs ac e none_there =
    let here : str_eq ac.uid v ≡ true = (str_eq_iff ac.uid v).1 e in
    ground (arith, occurrences-append Account.uid v acs ac, here, none_there)

err_ok : (x : BizError) (resp : RegisterResponse) → err x ≡ ok resp → ⊥
err_ok x resp e = cc

abbrev uid_or : Str → Outcome BizError RegisterResponse → Str
uid_or v (ok resp) = resp.uid
uid_or v (err e) = v
uid_or v panic = v

module _ {ℓ} {S T : Type ℓ} (redis : Redis S) (accounts : Collection Account T)
    (value : Str → S → Option ℕ) (documents : T → List Account) (fates : Fates) (now : ℤ)
    (req : RegisterParams) (s s' : S) (t t' : T) where
  -- What a successful registration of a WeChat account has done.
  abbrev pub Joined : RegisterResponse → Type 0
  Joined resp =
      (n : ℕ) × (resp.uid ≡ decimal (n + 1))
      × (occurrences Account.uid resp.uid (documents t) ≡ 0)
      × (documents t' ≡ documents t ++ (new_account req.account now resp.uid ∷ []))

  joined :
      (w : IsNumbered value documents s t) (laws : IsCollection accounts documents)
      (r : Option Str × S) (resp : RegisterResponse)
      → Next value documents w.last r
      → respond (with_id redis accounts now req r t).0 ≡ ok resp
      → (with_id redis accounts now req r t).2 ≡ t'
      → Joined resp
  unfolding with_id save_account respond new_account
  joined w laws (none, u) resp next e et = absurd (err_ok sql_error resp e)
  joined w laws (some uid, u) resp (named, stored) e et =
      let ac = new_account req.account now uid in
      elim (Bool-cases (accounts.insert_one ac t).0) [
        | inr failed ↦ absurd (err_ok sql_error resp (rw failed at e))
        | inl done ↦
            let same : resp.uid ≡ uid = ap (uid_or uid) (sym (rw done at e)) in
            (
              w.last,
              same ∙ named,
              ap (λ (v : Str). occurrences Account.uid v (documents t)) (same ∙ named)
                  ∙ unused w.last (w.last + 1) (documents t) (omega arith) w.given,
              ap documents (sym et)
                  ∙ laws.insert_lem ac t done
                  ∙ ap (λ (v : Str). documents t ++ (new_account req.account now v ∷ []))
                      (sym same),
            )
      ]

-- A WeChat account that is registered gets one more account, with a positive number as its id that no account
-- has had, whether or not the WeChat account was registered before.
pub register_lem {ℓ} :
    {S T : Type ℓ} (redis : Redis S) (accounts : Collection Account T) (value : Str → S → Option ℕ)
    (documents : T → List Account) (fates : Fates) (now : ℤ) (req : RegisterParams) (s s' : S)
    (t t' : T) (resp : RegisterResponse)
    → IsRedis redis value
    → IsCollection accounts documents
    → IsNumbered value documents s t
    → req.login_platform ≡ wei_xin
    → register redis accounts fates now req s t ≡ (ok resp, s', t')
    → (n : ℕ) × (resp.uid ≡ decimal (n + 1))
      × (occurrences Account.uid resp.uid (documents t) ≡ 0)
      × (documents t' ≡ documents t ++ (new_account req.account now resp.uid ∷ []))
unfolding register wx_register next_account_id
register_lem redis accounts value documents fates now req s s' t t' resp laws stores w by e =
    let r = wx_register redis accounts fates now req s t in
    let chosen : register redis accounts fates now req s t ≡ (respond r.0, r.1, r.2) =
      ap
        (λ (b : Bool).
          if b then (respond r.0, r.1, r.2) else (ok (record { uid = []; role_list = none }), s, t))
        ((==_iff req.login_platform wei_xin).1 by) in
    let whole = sym chosen ∙ e in
    joined redis accounts value documents fates now req s s' t t' w stores
      (call_exists redis fates fates.of_exists s) resp
      (call_exists-Next value documents redis laws w.last s w.stored fates fates.of_exists)
      (ap (λ x. x.0) whole) (ap (λ x. x.2) whole)

-- Who registers twice with the same WeChat account is two users: both accounts stand, with different ids.
pub register_twice {ℓ} :
    {S T : Type ℓ} (redis : Redis S) (accounts : Collection Account T) (value : Str → S → Option ℕ)
    (documents : T → List Account) (fates fates' : Fates) (now now' : ℤ) (req : RegisterParams)
    (s s' s'' : S) (t t' t'' : T) (resp resp' : RegisterResponse)
    → IsRedis redis value
    → IsCollection accounts documents
    → IsAtomic accounts documents
    → IsNumbered value documents s t
    → req.login_platform ≡ wei_xin
    → register redis accounts fates now req s t ≡ (ok resp, s', t')
    → register redis accounts fates' now' req s' t' ≡ (ok resp', s'', t'')
    → (resp.uid ≢ resp'.uid)
      × (documents t''
          ≡ documents t
            ++ (new_account req.account now resp.uid ∷ new_account req.account now' resp'.uid ∷ []))
register_twice {S = S} {T = T} redis accounts value documents fates fates' now now' req s s' s'' t
      t' t'' resp resp' laws stores atomic w by e e' =
    let w' : IsNumbered value documents s' t' =
      subst (λ (x : Outcome BizError RegisterResponse × S × T). IsNumbered value documents x.1 x.2)
        e (register-IsNumbered redis accounts value documents fates now req s t laws atomic w) in
    let (n, named, fresh, one) =
      register_lem redis accounts value documents fates now req s s' t t' resp laws stores w by e in
    let (n', named', fresh', two) =
      register_lem redis accounts value documents fates' now' req s' s'' t' t'' resp' laws stores w'
        by e' in
    (
      λ same.
          present resp'.uid (documents t) (new_account req.account now resp.uid)
            (unfold new_account in same)
            (ap (occurrences Account.uid resp'.uid) (sym one) ∙ fresh'),
      two
          ∙ ap (λ (l : List Account). l ++ (new_account req.account now' resp'.uid ∷ [])) one
          ∙ append_assoc (documents t) _ _,
    )

-- On another platform nothing happens, and the answer is empty.
pub register_other {ℓ} :
    {S T : Type ℓ} (redis : Redis S) (accounts : Collection Account T) (fates : Fates) (now : ℤ)
    (req : RegisterParams) (s : S) (t : T)
    → req.login_platform ≢ wei_xin
    → register redis accounts fates now req s t ≡ (ok (record { uid = []; role_list = none }), s, t)
unfolding register
register_other redis accounts fates now req s t other =
    let r = wx_register redis accounts fates now req s t in
    let differs : (req.login_platform == wei_xin) ≡ false =
      elim (Bool-cases (req.login_platform == wei_xin)) [
        | inl same ↦ absurd (other ((==_iff req.login_platform wei_xin).0 same))
        | inr apart ↦ apart
      ] in
    ap
      (λ (b : Bool).
        if b then (respond r.0, r.1, r.2) else (ok (record { uid = []; role_list = none }), s, t))
      differs
