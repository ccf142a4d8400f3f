-- ===== src/Base/Text.antt =====
-- `strings.Split` by one byte, on byte sequences.
use Prim.Native.Nat.{ℕ}
use mathlib.Core.Path.{◌≡◌, refl}
use mathlib.Core.Logic.{◌≢◌}
use mathlib.Core.List.{List, [], ◌∷◌, ◌++◌}
use native.Mathlib.Omega.{arith}
use recreation_test.Base.Tests.{◌==◌, if◌then◌else◌}
use recreation_test.Base.Lists.{All}
use recreation_test.Base.Equality.{Str}

-- Put a byte before the first part.
abbrev grow : ℕ → List Str → List Str
grow c [] = (c ∷ []) ∷ []
grow c (part ∷ parts) = (c ∷ part) ∷ parts

unfoldable pub split : ℕ → Str → List Str
split sep [] = [] ∷ []
split sep (c ∷ s) = let rest = split sep s in if c == sep then [] ∷ rest else grow c rest

-- No byte of the text is the separator.
abbrev pub IsFree : ℕ → Str → Type 0
IsFree sep = All (λ c. c ≢ sep)

pub split-free : (sep : ℕ) (s : Str) → IsFree sep s → split sep s ≡ s ∷ []
unfolding split
split-free sep [] h = refl
split-free sep (c ∷ s) (hc, h) = ground (arith, split-free sep s h)

-- The first part ends at the first separator.
pub split-append :
    (sep : ℕ) (s rest : Str) → IsFree sep s → split sep (s ++ (sep ∷ rest)) ≡ s ∷ split sep rest
unfolding split
split-append sep [] rest h = ground arith
split-append sep (c ∷ s) rest (hc, h) = ground (arith, split-append sep s rest h)
