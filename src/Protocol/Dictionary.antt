-- ===== src/Protocol/Dictionary.antt =====
-- framework/protocol/protocol.go: `SetDictionary` and `GetRoute`, over the package's two maps.
-- `range` over a Go map has no fixed order, so the entries come in a list, in any order. Routes
-- are ASCII: `strings.TrimSpace` drops the six ASCII spaces.
pub mod Inverse
use recreation_test.Base.{
  ℕ, ◌≡◌, Bool, true, false, ◌||◌, not, leb, ◌&&◌, ◌==◌, if◌then◌else◌, List, [], ◌∷◌, Option, none,
  some, Str, lookup, insert, nat_eq, string_eq,
}
use mathlib.Core.List.{reverse}
use recreation_test.Protocol.Types.{Dictionary}

unfoldable pub is_space : ℕ → Bool
is_space c = c == 0x20 || leb 0x09 c && leb c 0x0D

unfoldable pub drop_spaces : Str → Str
unfolding is_space
drop_spaces [] = []
drop_spaces (c ∷ s) = if is_space c then drop_spaces s else c ∷ s

unfoldable pub trim_space : Str → Str
unfolding drop_spaces
trim_space s = reverse (drop_spaces (reverse (drop_spaces s)))

abbrev pub is_some {ℓ} : {A : Type ℓ} → Option A → Bool
is_some none = false
is_some (some a) = true

unfoldable pub set_dictionary : Dictionary → List (Str × ℕ) → Dictionary
set_dictionary d [] = d
set_dictionary d ((route, code) ∷ dict) =
    let r = trim_space route in
    let rest =
      set_dictionary (record { routes = insert r code d.routes; codes = insert code r d.codes })
        dict in
    if is_some (lookup r d.routes) then d else if is_some (lookup code d.codes) then d else rest

unfoldable pub get_route : Dictionary → ℕ → Option Str
get_route d code = lookup code d.codes
