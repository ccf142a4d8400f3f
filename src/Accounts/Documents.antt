-- ===== src/Accounts/Documents.antt =====
-- A collection of MongoDB, as core/dao uses it: a parameter with its calls, and with `documents`, what is
-- stored. A call that fails may have had any effect; `$set` on a document is a function.
use recreation_test.Base.{
  ℕ, ◌+◌, ◌≤◌, ◌≡◌, refl, sym, Bool, true, if◌then◌else◌, List, [], ◌∷◌, ◌++◌, Option, none, some,
  Outcome, ok, Str, str_eq, Bool-cases, inl, inr, arith,
}
use mathlib.Core.Option.{some_inj}
use mathlib.Core.Path.{subst}

pub data DbError : Type 0 where
  db_error : DbError

-- `find_one` answers `none` for `ErrNoDocuments`; the writes answer whether they succeeded.
pub record Collection {ℓ} (D : Type 0) (S : Type ℓ) : Type ℓ where
  pub find_one : (D → Bool) → S → Outcome DbError (Option D)
  pub insert_one : D → S → Bool × S
  pub update_one : (D → Bool) → (D → D) → S → Bool × S

module _ {D : Type 0} where
  -- The first document that a filter accepts.
  unfoldable pub first : (D → Bool) → List D → Option D
  first f [] = none
  first f (d ∷ ds) = if f d then some d else first f ds

  unfoldable pub update_first : (D → Bool) → (D → D) → List D → List D
  update_first f g [] = []
  update_first f g (d ∷ ds) = if f d then g d ∷ ds else d ∷ update_first f g ds

pub record IsCollection {ℓ} {D : Type 0} {S : Type ℓ} (c : Collection D S) (documents : S → List D)
    : Type ℓ where
  pub find_lem :
      (f : D → Bool) (s : S) (o : Option D) → c.find_one f s ≡ ok o → o ≡ first f (documents s)
  pub insert_lem :
      (d : D) (s : S)
      → (c.insert_one d s).0 ≡ true
      → documents (c.insert_one d s).1 ≡ documents s ++ (d ∷ [])
  pub update_lem :
      (f : D → Bool) (g : D → D) (s : S)
      → (c.update_one f g s).0 ≡ true
      → documents (c.update_one f g s).1 ≡ update_first f g (documents s)

module _ {D : Type 0} where
  pub first-append :
      (f : D → Bool) (ds : List D) (d : D)
      → first f ds ≡ none
      → f d ≡ true
      → first f (ds ++ (d ∷ [])) ≡ some d
  unfolding first
  first-append f [] d h e = rw e refl
  first-append f (x ∷ ds) d h e = elim (Bool-cases (f x)) [
    | inl here ↦ absurd (some_none (sym (rw here at h)))
    | inr other ↦ rw other (first-append f ds d (rw other at h) e)
  ]
    where
      some_none : none ≡ some x → ⊥
      some_none p = cc

  pub first_holds : (f : D → Bool) (ds : List D) (d : D) → first f ds ≡ some d → f d ≡ true
  unfolding first
  first_holds f [] d h = absurd (cc)
  first_holds f (x ∷ ds) d h = elim (Bool-cases (f x)) [
    | inl here ↦ subst (λ (y : D). f y ≡ true) (some_inj.0 (rw here at h)) here
    | inr other ↦ first_holds f ds d (rw other at h)
  ]

  -- The values of a field; no value that is given stands twice.
  unfoldable pub occurrences : (D → Str) → Str → List D → ℕ
  occurrences field v [] = 0
  occurrences field v (d ∷ ds) =
      let others = occurrences field v ds in if str_eq (field d) v then others + 1 else others

  pub occurrences-append :
      (field : D → Str) (v : Str) (ds : List D) (d : D)
      → occurrences field v (ds ++ (d ∷ []))
        ≡ occurrences field v ds + (if str_eq (field d) v then 1 else 0)
  unfolding occurrences
  occurrences-append field v [] d = ground arith
  occurrences-append field v (x ∷ ds) d = ground (arith, occurrences-append field v ds d)

  pub occurrences_absent :
      (field : D → Str) (v : Str) (ds : List D)
      → first (λ d. str_eq (field d) v) ds ≡ none
      → occurrences field v ds ≡ 0
  unfolding occurrences first
  occurrences_absent field v [] h = refl
  occurrences_absent field v (x ∷ ds) h = elim (Bool-cases (str_eq (field x) v)) [
    | inl here ↦ absurd (some_none (sym (rw here at h)))
    | inr other ↦ rw other (occurrences_absent field v ds (rw other at h))
  ]
    where
      some_none : none ≡ some x → ⊥
      some_none p = cc

  pub occurrences-update_first :
      (field : D → Str) (f : D → Bool) (g : D → D) (v w : Str) (ds : List D)
      → ((d : D) → field (g d) ≡ w)
      → occurrences field v (update_first f g ds)
        ≤ occurrences field v ds + (if str_eq w v then 1 else 0)
  unfolding occurrences update_first
  occurrences-update_first field f g v w [] h = omega arith
  occurrences-update_first field f g v w (x ∷ ds) h =
      ground (arith, h x, occurrences-update_first field f g v w ds h)
