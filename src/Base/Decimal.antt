-- ===== src/Base/Decimal.antt =====
-- `%d` of a number that is not negative: its decimal digits as ASCII bytes.
use Prim.Native.Nat.{ℕ, ◌+◌, ◌-◌, ◌*◌, ◌/◌, ◌%◌, ◌<◌, ◌≤◌}
use mathlib.Core.Path.{◌≡◌, sym, ap, ◌∙◌}
use mathlib.Core.List.{List, [], ◌∷◌}
use mathlib.Core.Logic.{dite, dif_pos, dif_neg}
use mathlib.Core.WellFounded.{Acc}
use native.Mathlib.Bridge.{le_prop}
use native.Mathlib.Decide.{dec_lt}
use native.Mathlib.Omega.{arith}
use recreation_test.Base.Descent.{lt_wf}
use recreation_test.Base.Lists.{All}

pub fewer_digits : (n : ℕ) → 0 < n / 10 → n / 10 < n
fewer_digits n h = omega arith

decimal_loop : (n : ℕ) → Acc ◌<◌ n → List ℕ → List ℕ
decimal_loop n (Acc.intro _ smaller) rest =
    let front = (b'0' + n % 10) ∷ rest in
    dite (dec_lt 0 (n / 10)) (λ h. decimal_loop (n / 10) (smaller _ (fewer_digits n h)) front)
      (λ _. front)

unfoldable pub decimal : ℕ → List ℕ
unfolding decimal_loop lt_wf dec_lt
decimal n = decimal_loop n (lt_wf.apply n) []

-- The number that digits stand for, behind the digits of `n`.
unfoldable pub read_digits : ℕ → List ℕ → ℕ
read_digits n [] = n
read_digits n (c ∷ rest) = read_digits (n * 10 + (c - b'0')) rest

abbrev pub IsDigit : ℕ → Type 0
IsDigit c = (b'0' ≤ c) × (c ≤ b'9')

decimal_loop_read :
    (n : ℕ) (w : Acc ◌<◌ n) (rest : List ℕ)
    → read_digits 0 (decimal_loop n w rest) ≡ read_digits n rest
unfolding decimal_loop read_digits
decimal_loop_read n (Acc.intro _ smaller) rest = elim (dec_lt 0 (n / 10)) [
  | yes h ↦ rw (dif_pos (dec_lt 0 (n / 10)) le_prop h) (
      decimal_loop_read (n / 10) (smaller _ (fewer_digits n h)) ((b'0' + n % 10) ∷ rest)
      ∙ ap (λ (k : ℕ). read_digits k rest) (omega arith))
  | no h ↦ rw (dif_neg (dec_lt 0 (n / 10)) h) (ap (λ (k : ℕ). read_digits k rest) (omega arith))
]

pub read_digits-decimal : (n : ℕ) → read_digits 0 (decimal n) ≡ n
unfolding decimal read_digits
read_digits-decimal n = decimal_loop_read n (lt_wf.apply n) []

pub decimal_inj : (n k : ℕ) → decimal n ≡ decimal k → n ≡ k
decimal_inj n k e = sym (read_digits-decimal n) ∙ ap (read_digits 0) e ∙ read_digits-decimal k

decimal_loop-All :
    (n : ℕ) (w : Acc ◌<◌ n) (rest : List ℕ) → All IsDigit rest → All IsDigit (decimal_loop n w rest)
unfolding decimal_loop
decimal_loop-All n (Acc.intro _ smaller) rest h = elim (dec_lt 0 (n / 10)) [
  | yes more ↦ rw (dif_pos (dec_lt 0 (n / 10)) le_prop more) (
      decimal_loop-All (n / 10) (smaller _ (fewer_digits n more)) ((b'0' + n % 10) ∷ rest)
        ((omega arith, omega arith), h))
  | no last ↦ rw (dif_neg (dec_lt 0 (n / 10)) last) ((omega arith, omega arith), h)
]

pub decimal-All : (n : ℕ) → All IsDigit (decimal n)
unfolding decimal
decimal-All n = decimal_loop-All n (lt_wf.apply n) [] tt
