-- ===== src/Accounts/Users/Updates.antt =====
-- core/service/user.go: the updates of a user's address, real name and room, over those of core/dao/user.go,
-- with the update of the phone in both orders with them. Each `$set` is one step of the collection.
use recreation_test.Base.{
  ◌≡◌, ◌≢◌, ◌⊎◌, inl, inr, refl, sym, ap, ◌∙◌, Bool, true, false, if◌then◌else◌, List, [], ◌∷◌, Str,
  str_eq, str_eq_iff, Outcome, ok, err, Bool-cases,
}
use recreation_test.Accounts.Documents.{DbError, db_error, Collection, IsCollection, update_first}
use recreation_test.Accounts.Users.{User, BizError, sql_error, with_uid}

-- What a `$set` writes into the document of a user.
pub data Change : Type 0 where
  to_address : Str → Str → Change
  to_mobile_phone to_real_name to_room_id : Str → Change

module _ {I U : Type 0} where
  unfoldable pub change : Change → User I U → User I U
  change (to_address address location) u = record u { address = address; location = location }
  change (to_mobile_phone phone) u = record u { mobile_phone = phone }
  change (to_real_name info) u = record u { real_name = info }
  change (to_room_id room_id) u = record u { room_id = room_id }

module _ {ℓ} {I U : Type 0} {T : Type ℓ} (users : Collection (User I U) T) where
  -- `UpdateOne` of the document of a user.
  unfoldable pub update_user : Str → Change → T → Bool × T
  update_user uid c t = users.update_one (with_uid uid) (change c) t

  unfoldable pub update_user_address_by_uid : Str → Str → Str → T → Outcome DbError (Unit {0}) × T
  update_user_address_by_uid uid address location t =
      let (done, t') = update_user uid (to_address address location) t in
      (if done then ok tt else err db_error, t')

  unfoldable pub update_user_real_name : Str → Str → T → Outcome BizError (Unit {0}) × T
  update_user_real_name uid info t =
      let (done, t') = update_user uid (to_real_name info) t in
      (if done then ok tt else err sql_error, t')

  unfoldable pub update_user_room_id : Str → Str → T → Outcome BizError (Unit {0}) × T
  update_user_room_id uid room_id t =
      let (done, t') = update_user uid (to_room_id room_id) t in
      (if done then ok tt else err sql_error, t')

-- Changes of different fields.
abbrev pub AreApart : Change → Change → Type 0
AreApart (to_address a l) (to_address b k) = ⊥
AreApart (to_mobile_phone p) (to_mobile_phone q) = ⊥
AreApart (to_real_name p) (to_real_name q) = ⊥
AreApart (to_room_id p) (to_room_id q) = ⊥
AreApart c d = Unit {0}

module _ {I U : Type 0} where
  change-change :
      (c d : Change) (u : User I U) → AreApart c d → change c (change d u) ≡ change d (change c u)
  unfolding change
  change-change (to_address a l) (to_address b k) u h = absurd h
  change-change (to_mobile_phone p) (to_mobile_phone q) u h = absurd h
  change-change (to_real_name p) (to_real_name q) u h = absurd h
  change-change (to_room_id p) (to_room_id q) u h = absurd h
  change-change (to_address a l) (to_mobile_phone q) u h = refl
  change-change (to_address a l) (to_real_name q) u h = refl
  change-change (to_address a l) (to_room_id q) u h = refl
  change-change (to_mobile_phone p) (to_address b k) u h = refl
  change-change (to_mobile_phone p) (to_real_name q) u h = refl
  change-change (to_mobile_phone p) (to_room_id q) u h = refl
  change-change (to_real_name p) (to_address b k) u h = refl
  change-change (to_real_name p) (to_mobile_phone q) u h = refl
  change-change (to_real_name p) (to_room_id q) u h = refl
  change-change (to_room_id p) (to_address b k) u h = refl
  change-change (to_room_id p) (to_mobile_phone q) u h = refl
  change-change (to_room_id p) (to_real_name q) u h = refl

  change-uid : (c : Change) (u : User I U) → (change c u).uid ≡ u.uid
  unfolding change
  change-uid (to_address a l) u = refl
  change-uid (to_mobile_phone p) u = refl
  change-uid (to_real_name p) u = refl
  change-uid (to_room_id p) u = refl

  module _ (uid : Str) (c : Change) (u : User I U) (us : List (User I U)) where
    abbrev set_first : List (User I U) → List (User I U)
    set_first us = update_first (with_uid uid) (change c) us

    hit : str_eq u.uid uid ≡ true → set_first (u ∷ us) ≡ change c u ∷ us
    unfolding update_first
    hit e = rw e refl

    miss : str_eq u.uid uid ≡ false → set_first (u ∷ us) ≡ u ∷ set_first us
    unfolding update_first
    miss e = rw e refl

  -- An update of a user, and then one that passes the user over.
  past :
      (uid uid' : Str) (c d : Change) (u : User I U) (us : List (User I U))
      → str_eq u.uid uid ≡ true
      → str_eq u.uid uid' ≡ false
      → update_first (with_uid uid) (change c) (update_first (with_uid uid') (change d) (u ∷ us))
        ≡ update_first (with_uid uid') (change d) (update_first (with_uid uid) (change c) (u ∷ us))
  past uid uid' c d u us mine other =
      let still = ap (λ (t : Str). str_eq t uid') (change-uid c u) ∙ other in
      ap (update_first (with_uid uid) (change c)) (miss uid' d u us other)
      ∙ hit uid c u (update_first (with_uid uid') (change d) us) mine
      ∙ sym (miss uid' d (change c u) us still)
      ∙ sym (ap (update_first (with_uid uid') (change d)) (hit uid c u us mine))

  same_user :
      (uid uid' : Str) (c d : Change) (u : User I U) (us : List (User I U))
      → AreApart c d
      → str_eq u.uid uid ≡ true
      → str_eq u.uid uid' ≡ true
      → update_first (with_uid uid) (change c) (update_first (with_uid uid') (change d) (u ∷ us))
        ≡ update_first (with_uid uid') (change d) (update_first (with_uid uid) (change c) (u ∷ us))
  same_user uid uid' c d u us h mine mine' =
      let still = ap (λ (t : Str). str_eq t uid) (change-uid d u) ∙ mine in
      let still' = ap (λ (t : Str). str_eq t uid') (change-uid c u) ∙ mine' in
      ap (update_first (with_uid uid) (change c)) (hit uid' d u us mine')
      ∙ hit uid c (change d u) us still
      ∙ ap (λ (v : User I U). v ∷ us) (change-change c d u h)
      ∙ sym (hit uid' d (change c u) us still')
      ∙ sym (ap (update_first (with_uid uid') (change d)) (hit uid c u us mine))

  -- Updates of different users, or of different fields, in the two orders.
  update_first-update_first :
      (uid uid' : Str) (c d : Change) (us : List (User I U))
      → (uid ≢ uid') ⊎ AreApart c d
      → update_first (with_uid uid) (change c) (update_first (with_uid uid') (change d) us)
        ≡ update_first (with_uid uid') (change d) (update_first (with_uid uid) (change c) us)
  unfolding update_first
  update_first-update_first uid uid' c d [] h = refl
  update_first-update_first uid uid' c d (u ∷ us) h = elim (Bool-cases (str_eq u.uid uid)) [
    | inl mine ↦ elim (Bool-cases (str_eq u.uid uid')) [
      | inl both ↦ same_user uid uid' c d u us (apart mine both h) mine both
      | inr other ↦ past uid uid' c d u us mine other
    ]
    | inr other ↦ elim (Bool-cases (str_eq u.uid uid')) [
      | inl theirs ↦ sym (past uid' uid d c u us theirs other)
      | inr neither ↦
          ap (update_first (with_uid uid) (change c)) (miss uid' d u us neither)
          ∙ miss uid c u (update_first (with_uid uid') (change d) us) other
          ∙ ap (◌∷◌ u) (update_first-update_first uid uid' c d us h)
          ∙ sym (miss uid' d u (update_first (with_uid uid) (change c) us) neither)
          ∙ sym (ap (update_first (with_uid uid') (change d)) (miss uid c u us other))
    ]
  ]
    where
      apart :
          str_eq u.uid uid ≡ true
          → str_eq u.uid uid' ≡ true
          → (uid ≢ uid') ⊎ AreApart c d
          → AreApart c d
      apart mine theirs (inl other) =
          absurd (other (sym ((str_eq_iff u.uid uid).0 mine) ∙ (str_eq_iff u.uid uid').0 theirs))
      apart mine theirs (inr fields) = fields

-- Updates of different users, or of different fields of users, lose nothing to each other: in either order
-- the collection holds the same in the end, if all of them succeed.
pub updates_commute {ℓ} :
    {I U : Type 0} {T : Type ℓ} (users : Collection (User I U) T) (documents : T → List (User I U))
    (uid uid' : Str) (c d : Change) (t t1 t2 t3 t4 : T)
    → IsCollection users documents
    → (uid ≢ uid') ⊎ AreApart c d
    → update_user users uid c t ≡ (true, t1)
    → update_user users uid' d t1 ≡ (true, t2)
    → update_user users uid' d t ≡ (true, t3)
    → update_user users uid c t3 ≡ (true, t4)
    → documents t2 ≡ documents t4
unfolding update_user
updates_commute users documents uid uid' c d t t1 t2 t3 t4 laws h e1 e2 e3 e4 =
    let first_c = updated uid c t t1 e1 in
    let first_d = updated uid' d t t3 e3 in
    updated uid' d t1 t2 e2
    ∙ ap (update_first (with_uid uid') (change d)) first_c
    ∙ sym (update_first-update_first uid uid' c d (documents t) h)
    ∙ sym (ap (update_first (with_uid uid) (change c)) first_d)
    ∙ sym (updated uid c t3 t4 e4)
  where
    updated :
        (v : Str) (x : Change) (s s' : _)
        → update_user users v x s ≡ (true, s')
        → documents s' ≡ update_first (with_uid v) (change x) (documents s)
    updated v x s s' e =
        ap documents (sym (ap (λ r. r.1) e))
        ∙ laws.update_lem (with_uid v) (change x) s (ap (λ r. r.0) e)
