-- ===== src/Protocol/Dictionary/Inverse.antt =====
-- The two maps of the dictionary stay inverse to one another, and no entry is ever changed.
use recreation_test.Base.{
  true, ◌||◌, ◌++◌, ℕ, ◌≡◌, ◌<◌, refl, false, List, [], ◌∷◌, Option, none, some, Str, str_eq_iff,
  lookup, insert, nat_eq, string_eq, lookup-insert, arith, All, Bool-cases, inl, inr,
}
use recreation_test.Protocol.Types.{Dictionary}
use recreation_test.Protocol.Dictionary.{set_dictionary, trim_space, is_some}

-- A code leads back to its route and a route to its code; codes are 16-bit numbers.
pub record IsInverse (d : Dictionary) : Type 0 where
  pub there : (r : Str) (c : ℕ) → lookup r d.routes ≡ some c → lookup c d.codes ≡ some r
  pub back : (r : Str) (c : ℕ) → lookup c d.codes ≡ some r → lookup r d.routes ≡ some c
  pub narrow : (r : Str) (c : ℕ) → lookup r d.routes ≡ some c → c < 65_536

module _ (d : Dictionary) (r : Str) (c : ℕ) where
  abbrev with_entry : Dictionary
  with_entry = record { routes = insert r c d.routes; codes = insert c r d.codes }

  with_entry-IsInverse :
      IsInverse d
      → lookup r d.routes ≡ none
      → lookup c d.codes ≡ none
      → c < 65_536
      → IsInverse with_entry
  with_entry-IsInverse v fresh_route fresh_code small = record {
    there = λ r' c'. ground (
      arith,
      lookup-insert r r' c d.routes,
      lookup-insert c c' r d.codes,
      str_eq_iff r r',
      v.there r' c',
    );
    back = λ r' c'. ground (
      arith,
      lookup-insert r r' c d.routes,
      lookup-insert c c' r d.codes,
      str_eq_iff r r',
      v.back r' c',
    );
    narrow = λ r' c'. ground (arith, lookup-insert r r' c d.routes, v.narrow r' c');
  }

is_some-false {ℓ} : {A : Type ℓ} (o : Option A) → is_some o ≡ false → o ≡ none
is_some-false none h = refl
is_some-false (some a) h = cc

-- In whatever order the entries come, and however many of them are dropped as duplicates, the
-- maps stay inverse and the codes 16-bit numbers.
pub set_dictionary-IsInverse :
    (d : Dictionary) (dict : List (Str × ℕ))
    → IsInverse d
    → All (λ entry. entry.1 < 65_536) dict
    → IsInverse (set_dictionary d dict)
unfolding set_dictionary
set_dictionary-IsInverse d [] v small = v
set_dictionary-IsInverse d ((route, code) ∷ dict) v (small, rest) =
    elim (Bool-cases (is_some (lookup (trim_space route) d.routes))) [
      | inl known ↦ rw known v
      | inr new_route ↦ rw new_route (elim (Bool-cases (is_some (lookup code d.codes))) [
        | inl known ↦ rw known v
        | inr new_code ↦ rw new_code (
            set_dictionary-IsInverse (with_entry d (trim_space route) code) dict
              (with_entry-IsInverse d (trim_space route) code v (is_some-false _ new_route)
                (is_some-false _ new_code) small)
              rest)
      ])
    ]

-- An entry that is in the dictionary stays as it is, whatever a later handshake sends.
pub set_dictionary_keeps :
    (d : Dictionary) (dict : List (Str × ℕ)) (r : Str) (c : ℕ)
    → lookup r d.routes ≡ some c
    → lookup r (set_dictionary d dict).routes ≡ some c
unfolding set_dictionary
set_dictionary_keeps d [] r c h = h
set_dictionary_keeps d ((route, code) ∷ dict) r c h =
    let new = trim_space route in
    ground (
      arith,
      lookup-insert new r code d.routes,
      str_eq_iff new r,
      set_dictionary_keeps (with_entry d new code) dict r c,
    )

-- The first entry whose trimmed route or whose code is taken ends the whole update: what `range`
-- would visit behind it is dropped, although the comment in the code speaks of using the last value.
pub set_dictionary_stops :
    (d : Dictionary) (before after : List (Str × ℕ)) (route : Str) (code : ℕ)
    → (is_some (lookup (trim_space route) d.routes) || is_some (lookup code d.codes)) ≡ true
    → set_dictionary d (before ++ ((route, code) ∷ after)) ≡ set_dictionary d before
unfolding set_dictionary
set_dictionary_stops d [] after route code h = ground arith
set_dictionary_stops d ((route', code') ∷ before) after route code h = ground (
  arith,
  lookup-insert (trim_space route') (trim_space route) code' d.routes,
  lookup-insert code' code (trim_space route') d.codes,
  set_dictionary_stops (with_entry d (trim_space route') code') before after route code,
)
