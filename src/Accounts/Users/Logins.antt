-- ===== src/Accounts/Users/Logins.antt =====
-- The login of a user.
use recreation_test.Base.{
  ◌≤◌, ◌≡◌, refl, sym, ap, ◌∙◌, List, [], ◌∷◌, ◌++◌, Option, none, some, Str, str_eq, str_eq_iff,
  Outcome, ok, err, panic, Bool-cases, inl, inr, arith,
}
use recreation_test.Base.Int.{ℤ}
use recreation_test.Accounts.Documents.{
  DbError, db_error, Collection, IsCollection, first, occurrences, occurrences-append,
  occurrences_absent,
}
use recreation_test.Accounts.Users.{
  User, UserInfo, with_uid, with_unions, new_user, find_user_by_uid, insert_user, save_user,
  find_and_save_user_by_uid,
}

module _ {A : Type 0} where
  abbrev ok_of : A → Outcome DbError A
  ok_of a = ok a

  abbrev value_or : A → Outcome DbError A → A
  value_or a (ok x) = x
  value_or a (err x) = a
  value_or a panic = a

  ok_inj : (a b : A) → ok_of a ≡ ok_of b → a ≡ b
  ok_inj a b e = ap (value_or a) e

  err_ok : (x : DbError) (a : A) → err x ≡ ok_of a → ⊥
  err_ok x a e = cc

  panic_ok : (a : A) → panic ≡ ok_of a → ⊥
  panic_ok a e = cc

module _ {ℓ} {I U : Type 0} {S : Type ℓ} (users : Collection (User I U) S)
    (documents : S → List (User I U)) (laws : IsCollection users documents) (uid : Str)
    (s : S) where
  -- What a successful login has found or made.
  data LoggedIn (u : User I U) (s' : S) : Type ℓ where
    known :
        (x : User I U)
        → users.find_one (with_uid uid) s ≡ ok (some x)
        → u ≡ with_unions x
        → s' ≡ s
        → LoggedIn u s'
    made :
        (x : User I U)
        → first (with_uid uid) (documents s) ≡ none
        → x.uid ≡ uid
        → documents s' ≡ documents s ++ (x ∷ [])
        → u ≡ with_unions x
        → LoggedIn u s'

  insert_user-LoggedIn :
      (x u : User I U) (s' : S)
      → x.uid ≡ uid
      → first (with_uid uid) (documents s) ≡ none
      → insert_user users x s ≡ (ok u, s')
      → LoggedIn u s'
  unfolding insert_user
  insert_user-LoggedIn x u s' named fresh e = elim (Bool-cases (users.insert_one x s).0) [
    | inr refused ↦ absurd (err_ok db_error u (rw refused at (ap (λ r. r.0) e)))
    | inl done ↦
        made x fresh named (ap documents (sym (ap (λ r. r.1) e)) ∙ laws.insert_lem x s done)
          (ok_inj u (with_unions x) (sym (rw done at (ap (λ r. r.0) e))))
  ]

  find_and_save-LoggedIn :
      (start_gold : Option ℤ) (now : ℤ) (info : UserInfo) (u : User I U) (s' : S)
      (r : Outcome DbError (Option (User I U)))
      → users.find_one (with_uid uid) s ≡ r
      → find_and_save_user_by_uid users start_gold now uid info s ≡ (ok u, s')
      → LoggedIn u s'
  unfolding find_and_save_user_by_uid find_user_by_uid save_user new_user
  find_and_save-LoggedIn start_gold now info u s' (ok (some x)) f e =
      let e' : (ok (with_unions x), s) ≡ (ok u, s') = rw (f, find_and_save_user_by_uid) at e in
      known x f (ok_inj u (with_unions x) (sym (ap (λ r. r.0) e'))) (sym (ap (λ r. r.1) e'))
  find_and_save-LoggedIn none now info u s' (ok none) f e =
      absurd (panic_ok u (ap (λ r. r.0) (rw (f, find_and_save_user_by_uid) at e)))
  find_and_save-LoggedIn (some gold) now info u s' (ok none) f e =
      insert_user-LoggedIn (new_user gold now uid info) u s' refl
        (sym (laws.find_lem (with_uid uid) s none f)) (rw (f, find_and_save_user_by_uid) at e)
  find_and_save-LoggedIn start_gold now info u s' (err x) f e =
      absurd (err_ok x u (ap (λ r. r.0) (rw (f, find_and_save_user_by_uid) at e)))
  find_and_save-LoggedIn start_gold now info u s' panic f e =
      absurd (panic_ok u (ap (λ r. r.0) (rw (f, find_and_save_user_by_uid) at e)))

  unique_lem :
      (u : User I U) (s' : S) (v : Str)
      → LoggedIn u s'
      → occurrences User.uid v (documents s) ≤ 1
      → occurrences User.uid v (documents s') ≤ 1
  unique_lem u s' v (known x f eu es) h = rw es h
  unique_lem u s' v (made x fresh named es eu) h =
      let added = ap (occurrences User.uid v) es ∙ occurrences-append User.uid v (documents s) x in
      let absent : occurrences User.uid uid (documents s) ≡ 0 =
        occurrences_absent User.uid uid (documents s) fresh in
      elim (Bool-cases (str_eq x.uid v)) [
        | inl same ↦
            let e : uid ≡ v = sym named ∙ (str_eq_iff x.uid v).0 same in
            let none_yet : occurrences User.uid v (documents s) ≡ 0 =
              ap (λ (t : Str). occurrences User.uid t (documents s)) (sym e) ∙ absent in
            ground (arith, added, none_yet, same)
        | inr other ↦ ground (arith, added, h, other)
      ]

-- A successful login keeps the users' ids distinct.
pub login_unique {ℓ} :
    {I U : Type 0} {S : Type ℓ} (users : Collection (User I U) S) (documents : S → List (User I U))
    (uid v : Str) (s s' : S) (start_gold : Option ℤ) (now : ℤ) (info : UserInfo) (u : User I U)
    → IsCollection users documents
    → find_and_save_user_by_uid users start_gold now uid info s ≡ (ok u, s')
    → occurrences User.uid v (documents s) ≤ 1
    → occurrences User.uid v (documents s') ≤ 1
login_unique users documents uid v s s' start_gold now info u laws e h =
    unique_lem users documents laws uid s u s' v
      (find_and_save-LoggedIn users documents laws uid s start_gold now info u s'
        (users.find_one (with_uid uid) s) refl e)
      h
