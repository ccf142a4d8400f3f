-- ===== src/Base/Descent.antt =====
-- The order of the native numbers is well founded.
use Prim.Native.Nat.{ℕ, zero, suc, ◌<◌}
use mathlib.Core.WellFounded.{Acc, WellFounded}
use native.Mathlib.Omega.{arith}

acc_up_to : (bound n : ℕ) → n < bound → Acc ◌<◌ n
acc_up_to zero n h = absurd (omega arith)
acc_up_to (suc bound) n h = Acc.intro n (λ m lt. acc_up_to bound m (omega arith))

unfoldable pub lt_wf : WellFounded ◌<◌
unfolding acc_up_to
lt_wf = record { apply = λ n. acc_up_to (suc n) n (omega arith) }
