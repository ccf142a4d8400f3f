-- ===== src/Accounts/Registration/Numbers.antt =====
-- The ids of the accounts.
use mathlib.Core.Path.{subst}
use recreation_test.Base.{
  ℕ, ◌+◌, ◌<◌, ◌≤◌, ◌≡◌, ◌⊎◌, inl, inr, refl, sym, ap, ◌∙◌, ◌==◌, true, List, [], ◌∷◌, ◌++◌, Option,
  none, some, Str, str_eq, str_eq_iff, Outcome, ok, All, All-append, Bool-cases, if_both, arith,
}
use recreation_test.Base.Int.{ℤ}
use recreation_test.Base.Decimal.{decimal, decimal_inj}
use recreation_test.Accounts.Ids.{account_id_key, Redis, IsRedis, or_zero, is_some}
use recreation_test.Accounts.Documents.{Collection, occurrences, occurrences-append}
use recreation_test.Accounts.Users.{Account, BizError}
use recreation_test.Accounts.Registration.{
  Fate, fine, refused, lost, Fates, wei_xin, RegisterParams, RegisterResponse, call_incr,
  call_exists, next_account_id, new_account, save_account, with_id, wx_register, respond, register,
}

-- The uid of an account is an id up to `n`.
abbrev Given : ℕ → Account → Type 0
Given n ac = (k : ℕ) × (k ≤ n) × (ac.uid ≡ decimal k)

Given-up : (n m : ℕ) (acs : List Account) → n ≤ m → All (Given n) acs → All (Given m) acs
Given-up n m [] le h = tt
Given-up n m (ac ∷ acs) le ((k, small, e), h) =
    ((k, omega (arith, le, small), e), Given-up n m acs le h)

-- An id beyond those that were given is nobody's.
pub unused :
    (n k : ℕ) (acs : List Account)
    → n < k
    → All (Given n) acs
    → occurrences Account.uid (decimal k) acs ≡ 0
unfolding occurrences
unused n k [] h g = refl
unused n k (ac ∷ acs) h ((j, small, e), g) = elim (Bool-cases (str_eq ac.uid (decimal k))) [
  | inl same ↦
      absurd
        (omega (arith, h, small, decimal_inj j k (sym e ∙ (str_eq_iff ac.uid (decimal k)).0 same)))
  | inr other ↦ rw other (unused n k acs h g)
]

-- The writes of MongoDB are atomic: a document is added, or not.
abbrev pub IsAtomic {ℓ} : {T : Type ℓ} → Collection Account T → (T → List Account) → Type ℓ
IsAtomic accounts documents =
    (ac : Account) (t : _)
    → (documents (accounts.insert_one ac t).1 ≡ documents t)
      ⊎ (documents (accounts.insert_one ac t).1 ≡ documents t ++ (ac ∷ []))

module _ {ℓ} {S T : Type ℓ} (value : Str → S → Option ℕ) (documents : T → List Account) where
  -- The key stands, and each account has another number up to its value as its id.
  pub record IsNumbered (s : S) (t : T) : Type ℓ where
    pub last : ℕ
    pub stored : value account_id_key s ≡ some last
    pub given : All (Given last) (documents t)
    pub distinct : (v : Str) → occurrences Account.uid v (documents t) ≤ 1

  -- The id that a request was given, and the store behind its calls.
  abbrev pub Next : ℕ → Option Str × S → Type 0
  Next n (none, s) = (value account_id_key s ≡ some n) ⊎ (value account_id_key s ≡ some (n + 1))
  Next n (some uid, s) = (uid ≡ decimal (n + 1)) × (value account_id_key s ≡ some (n + 1))

  module _ (redis : Redis S) (laws : IsRedis redis value) (n : ℕ) (s : S)
      (stored : value account_id_key s ≡ some n) where
    incremented : value account_id_key (redis.incr account_id_key s).1 ≡ some (n + 1)
    incremented =
        laws.incr_lem account_id_key account_id_key s
        ∙ ap (λ (o : Option ℕ). some (or_zero o + 1)) stored

    call_incr-Next : (fate : Fate) → Next n (call_incr redis fate s)
    unfolding call_incr
    call_incr-Next fine = (
      ap decimal (laws.incr_answer account_id_key s ∙ ap (λ (o : Option ℕ). or_zero o + 1) stored),
      incremented,
    )
    call_incr-Next refused = inl stored
    call_incr-Next lost = inr incremented

    pub call_exists-Next : (fates : Fates) (fate : Fate) → Next n (call_exists redis fates fate s)
    unfolding call_exists
    call_exists-Next fates fine =
        let there : redis.exists account_id_key s ≡ true =
          laws.exists_lem account_id_key s ∙ ap is_some stored in
        rw there (call_incr-Next fates.of_incr)
    call_exists-Next fates refused = inl stored
    call_exists-Next fates lost = inl stored

  module _ (s s' : S) (t t' : T) (w : IsNumbered s t) where
    skipped :
        (m : ℕ)
        → w.last ≤ m
        → value account_id_key s' ≡ some m
        → documents t' ≡ documents t
        → IsNumbered s' t'
    skipped m le stored same = record {
      last = m;
      stored = stored;
      given = subst (All (Given m)) (sym same) (Given-up w.last m (documents t) le w.given);
      distinct = λ v.
          subst (λ (l : List Account). occurrences Account.uid v l ≤ 1) (sym same) (w.distinct v);
    }

    added :
        (ac : Account)
        → ac.uid ≡ decimal (w.last + 1)
        → value account_id_key s' ≡ some (w.last + 1)
        → documents t' ≡ documents t ++ (ac ∷ [])
        → IsNumbered s' t'
    added ac named stored grown = record {
      last = w.last + 1;
      stored = stored;
      given = subst (All (Given (w.last + 1))) (sym grown) (
          All-append (Given (w.last + 1)) (documents t) (ac ∷ [])
            (Given-up w.last (w.last + 1) (documents t) (omega arith) w.given)
            ((w.last + 1, omega arith, named), tt));
      distinct = λ v.
          let count =
            ap (occurrences Account.uid v) grown
            ∙ occurrences-append Account.uid v (documents t) ac in
          elim (Bool-cases (str_eq ac.uid v)) [
            | inl same ↦
                let e : decimal (w.last + 1) ≡ v = sym named ∙ (str_eq_iff ac.uid v).0 same in
                let none_yet : occurrences Account.uid v (documents t) ≡ 0 =
                  ap (λ (u : Str). occurrences Account.uid u (documents t)) (sym e)
                  ∙ unused w.last (w.last + 1) (documents t) (omega arith) w.given in
                ground (arith, count, none_yet, same)
            | inr other ↦ ground (arith, count, other, w.distinct v)
          ];
    }

  module _ (accounts : Collection Account T) (atomic : IsAtomic accounts documents) (s : S) (t : T)
      (w : IsNumbered s t) (now : ℤ) (req : RegisterParams) where
    with_id-IsNumbered :
        (redis : Redis S) (r : Option Str × S)
        → Next w.last r
        → IsNumbered (with_id redis accounts now req r t).1 (with_id redis accounts now req r t).2
    unfolding with_id save_account new_account
    with_id-IsNumbered redis (none, s') (inl stored) =
        skipped s s' t t w w.last (omega arith) stored refl
    with_id-IsNumbered redis (none, s') (inr stored) =
        skipped s s' t t w (w.last + 1) (omega arith) stored refl
    with_id-IsNumbered redis (some uid, s') (named, stored) =
        let ac = new_account req.account now uid in
        let t' = (accounts.insert_one ac t).1 in
        elim (atomic ac t) [
          | inl same ↦ skipped s s' t t' w (w.last + 1) (omega arith) stored same
          | inr grown ↦ added s s' t t' w ac named stored grown
        ]

-- If the number stands in Redis, the ids of the accounts are distinct and at most that number, then so it is
-- after a registration that runs while no other request does, whatever becomes of its calls.
pub register-IsNumbered {ℓ} :
    {S T : Type ℓ} (redis : Redis S) (accounts : Collection Account T) (value : Str → S → Option ℕ)
    (documents : T → List Account) (fates : Fates) (now : ℤ) (req : RegisterParams) (s : S) (t : T)
    → IsRedis redis value
    → IsAtomic accounts documents
    → IsNumbered value documents s t
    → let (r, s', t') = register redis accounts fates now req s t in
      IsNumbered value documents s' t'
unfolding register wx_register next_account_id
register-IsNumbered {S = S} {T = T} redis accounts value documents fates now req s t laws atomic w =
    let r = wx_register redis accounts fates now req s t in
    if_both (λ (x : Outcome BizError RegisterResponse × S × T). IsNumbered value documents x.1 x.2)
      (req.login_platform == wei_xin) (respond r.0, r.1, r.2)
      (ok (record { uid = []; role_list = none }), s, t)
      (with_id-IsNumbered value documents accounts atomic s t w now req redis
        (call_exists redis fates fates.of_exists s)
        (call_exists-Next value documents redis laws w.last s w.stored fates fates.of_exists))
      w
