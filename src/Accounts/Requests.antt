-- ===== src/Accounts/Requests.antt =====
-- Lists of requests, of which one moves.
use mathlib.Core.Option.{some_inj}
use native.Mathlib.Decide.{ℕ_discrete}
use recreation_test.Base.{
  ℕ, zero, suc, ◌≡◌, ◌≢◌, ◌⊎◌, inl, inr, refl, sym, ap, ◌∙◌, List, [], ◌∷◌, ◌++◌, get_elem?, some,
}
use recreation_test.Net.Clients.{update_at}

module _ {ℓ} {A : Type ℓ} where
  -- The list with another request at an index.
  abbrev pub put_at : ℕ → A → List A → List A
  put_at i r rs = update_at i (λ old. r) rs

  pub get_elem?-put_at :
      (i : ℕ) (old new : A) (rs : List A)
      → get_elem? rs i ≡ some old
      → get_elem? (put_at i new rs) i ≡ some new
  unfolding update_at
  get_elem?-put_at i old new [] e = absurd (cc)
  get_elem?-put_at zero old new (r ∷ rs) e = refl
  get_elem?-put_at (suc i) old new (r ∷ rs) e = get_elem?-put_at i old new rs e

  pub get_elem?-put_at_other :
      (i j : ℕ) (new : A) (rs : List A) → i ≢ j → get_elem? (put_at i new rs) j ≡ get_elem? rs j
  unfolding update_at
  get_elem?-put_at_other i j new [] h = refl
  get_elem?-put_at_other zero zero new (r ∷ rs) h = absurd (h refl)
  get_elem?-put_at_other zero (suc j) new (r ∷ rs) h = refl
  get_elem?-put_at_other (suc i) zero new (r ∷ rs) h = refl
  get_elem?-put_at_other (suc i) (suc j) new (r ∷ rs) h =
      get_elem?-put_at_other i j new rs (λ e. h (ap suc e))

  put_at_in : (i : ℕ) (new x : A) (rs : List A) → get_elem? (put_at i new rs) i ≡ some x → x ≡ new
  unfolding update_at
  put_at_in i new x [] e = absurd (cc)
  put_at_in zero new x (r ∷ rs) e = sym (some_inj.0 e)
  put_at_in (suc i) new x (r ∷ rs) e = put_at_in i new x rs e

  -- What stands at an index is the new request, or was there before.
  pub put_at_cases :
      (i j : ℕ) (new x : A) (rs : List A)
      → get_elem? (put_at i new rs) j ≡ some x
      → ((i ≡ j) × (x ≡ new)) ⊎ ((i ≢ j) × (get_elem? rs j ≡ some x))
  put_at_cases i j new x rs e = elim (ℕ_discrete i j) [
    | yes same ↦ inl (same, put_at_in i new x rs (ap (get_elem? (put_at i new rs)) same ∙ e))
    | no other ↦ inr (other, sym (get_elem?-put_at_other i j new rs other) ∙ e)
  ]

  pub append_cases :
      (j : ℕ) (new x : A) (rs : List A)
      → get_elem? (rs ++ (new ∷ [])) j ≡ some x
      → (x ≡ new) ⊎ (get_elem? rs j ≡ some x)
  append_cases zero new x [] e = inl (sym (some_inj.0 e))
  append_cases (suc j) new x [] e = absurd (cc)
  append_cases zero new x (r ∷ rs) e = inr e
  append_cases (suc j) new x (r ∷ rs) e = append_cases j new x rs e

  pub get_elem?-append :
      (j : ℕ) (new x : A) (rs : List A)
      → get_elem? rs j ≡ some x
      → get_elem? (rs ++ (new ∷ [])) j ≡ some x
  get_elem?-append j new x [] e = absurd (cc)
  get_elem?-append zero new x (r ∷ rs) e = e
  get_elem?-append (suc j) new x (r ∷ rs) e = get_elem?-append j new x rs e
