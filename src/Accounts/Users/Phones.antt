-- ===== src/Accounts/Users/Phones.antt =====
-- The phones of accounts.
use mathlib.Core.Option
use recreation_test.Base.{
  ℕ, ◌+◌, ◌≤◌, ◌≡◌, refl, sym, ap, ◌∙◌, true, if◌then◌else◌, List, [], ◌∷◌, Option, none, some, Str,
  str_eq, str_eq_iff, str_eq_refl, Outcome, ok, err, panic, Bool-cases, inl, inr, arith,
}
use recreation_test.Accounts.Documents.{
  DbError, Collection, IsCollection, first, update_first, occurrences, occurrences_absent,
  occurrences-update_first,
}
use recreation_test.Accounts.Users.{
  User, Account, BizError, sql_error, phone_already_bind, account_with_uid, with_phone_account,
  update_phone_account, write_phone, bind_phone,
}

-- The account with its new phone.
abbrev pub with_phone : Str → Account → Account
with_phone phone a = record a { phone_account = phone }

first_bound :
    (uid phone : Str) (ds : List Account)
    → first (with_phone_account phone) ds ≡ none
    → first (with_phone_account phone) (update_first (account_with_uid uid) (with_phone phone) ds)
      ≡ Option.map (with_phone phone) (first (account_with_uid uid) ds)
unfolding first update_first
first_bound uid phone [] h = refl
first_bound uid phone (d ∷ ds) h = elim (Bool-cases (str_eq d.phone_account phone)) [
  | inl taken ↦ absurd (some_none (rw taken at h))
  | inr other ↦ elim (Bool-cases (str_eq d.uid uid)) [
    | inl mine ↦ rw mine (rw (str_eq_refl phone) refl)
    | inr theirs ↦ rw theirs (rw other (first_bound uid phone ds (rw other at h)))
  ]
]
  where
    some_none : some d ≡ none → ⊥
    some_none p = cc

unique_lem :
    (phone v : Str) (ds : List Account) (after : ℕ)
    → occurrences Account.phone_account phone ds ≡ 0
    → occurrences Account.phone_account v ds ≤ 1
    → after ≤ occurrences Account.phone_account v ds + (if str_eq phone v then 1 else 0)
    → after ≤ 1
unique_lem phone v ds after absent h grown = elim (Bool-cases (str_eq phone v)) [
  | inl same ↦
      let none_yet : occurrences Account.phone_account v ds ≡ 0 =
        ap (λ (t : Str). occurrences Account.phone_account t ds) (sym ((str_eq_iff phone v).0 same))
        ∙ absent in
      ground (arith, none_yet, same, grown)
  | inr other ↦ ground (arith, other, grown, h)
]

-- Not the answer of a success.
abbrev IsFailure : Outcome BizError (Unit {0}) → Type 0
IsFailure (ok x) = ⊥
IsFailure (err e) = Unit {0}
IsFailure panic = Unit {0}

not_ok : (r : Outcome BizError (Unit {0})) → IsFailure r → r ≡ ok tt → ⊥
not_ok (ok x) h e = h
not_ok (err x) h e = cc
not_ok panic h e = cc

module _ {ℓ} {I U : Type 0} {S T : Type ℓ} (accounts : Collection Account S)
    (users : Collection (User I U) T) (uid phone : Str) (s s' : S) (t t' : T) where
  -- The account collection behind a success.
  write_phone_lem :
      write_phone accounts users uid phone s t ≡ (ok tt, s', t')
      → ((update_phone_account accounts users uid phone s).0 ≡ true)
        × (s' ≡ (update_phone_account accounts users uid phone s).1)
  unfolding write_phone
  write_phone_lem e = elim (Bool-cases (update_phone_account accounts users uid phone s).0) [
    | inl done ↦ (done, sym (ap (λ r. r.1) (rw (done, write_phone) at e)))
    | inr not_done ↦
        absurd (not_ok (err sql_error) tt (ap (λ r. r.0) (rw (not_done, write_phone) at e)))
  ]

  bind_phone_cases :
      (r : Outcome DbError (Option Account))
      → accounts.find_one (with_phone_account phone) s ≡ r
      → bind_phone accounts users uid phone s t ≡ (ok tt, s', t')
      → (r ≡ ok none) × (write_phone accounts users uid phone s t ≡ (ok tt, s', t'))
  unfolding bind_phone
  bind_phone_cases (ok none) f e = (refl, rw (f, bind_phone) at e)
  bind_phone_cases (ok (some a)) f e =
      absurd (not_ok (err phone_already_bind) tt (ap (λ r. r.0) (rw (f, bind_phone) at e)))
  bind_phone_cases (err x) f e =
      absurd (not_ok (err sql_error) tt (ap (λ r. r.0) (rw (f, bind_phone) at e)))
  bind_phone_cases panic f e = absurd (not_ok panic tt (ap (λ r. r.0) (rw (f, bind_phone) at e)))

-- A phone is bound only if no account has it, and then it is the phone of the first account with that id and
-- of no other: the account that is found by the phone afterwards is that one, or none if no account has
-- the id. No phone becomes the phone of two accounts.
pub bind_phone_lem {ℓ} :
    {I U : Type 0} {S T : Type ℓ} (accounts : Collection Account S)
    (users : Collection (User I U) T) (documents : S → List Account) (uid phone v : Str) (s s' : S)
    (t t' : T)
    → IsCollection accounts documents
    → bind_phone accounts users uid phone s t ≡ (ok tt, s', t')
    → occurrences Account.phone_account v (documents s) ≤ 1
    → (first (with_phone_account phone) (documents s) ≡ none)
      × (first (with_phone_account phone) (documents s')
          ≡ Option.map (with_phone phone) (first (account_with_uid uid) (documents s)))
      × (occurrences Account.phone_account v (documents s') ≤ 1)
unfolding update_phone_account
bind_phone_lem accounts users documents uid phone v s s' t t' laws e h =
    let query = accounts.find_one (with_phone_account phone) s in
    let (nobody, wrote) = bind_phone_cases accounts users uid phone s s' t t' query refl e in
    let (done, es) = write_phone_lem accounts users uid phone s s' t t' wrote in
    let free : first (with_phone_account phone) (documents s) ≡ none =
      sym (laws.find_lem (with_phone_account phone) s none nobody) in
    let absent = occurrences_absent Account.phone_account phone (documents s) free in
    let stored : documents s'
        ≡ update_first (account_with_uid uid) (with_phone phone) (documents s) =
      ap documents es ∙ laws.update_lem (account_with_uid uid) (with_phone phone) s done in
    let grown =
      occurrences-update_first Account.phone_account (account_with_uid uid) (with_phone phone) v
        phone (documents s) (λ a. refl) in
    (
      free,
      ap (first (with_phone_account phone)) stored ∙ first_bound uid phone (documents s) free,
      rw stored (unique_lem phone v (documents s) _ absent h grown),
    )
