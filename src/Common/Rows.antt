-- ===== src/Common/Rows.antt =====
-- Checking every value below a bound by evaluation.
use Prim.Native.Nat.{ℕ, zero, suc, ◌<◌}
use mathlib.Core.Path.{◌≡◌}
use mathlib.Core.Bool.{Bool, true, ◌&&◌}
use native.Mathlib.Omega.{arith}
use librd.Common.Tests.{◌==◌}

-- `f` and `g` agree at every number below `rows`.
unfoldable pub agree : (ℕ → ℕ) → (ℕ → ℕ) → ℕ → Bool
agree f g zero = true
agree f g (suc rows) = agree f g rows && f rows == g rows

pub eq_of_agree : (f g : ℕ → ℕ) (rows x : ℕ) → agree f g rows ≡ true → x < rows → f x ≡ g x
unfolding agree
eq_of_agree f g zero x all fits = absurd (omega arith)
eq_of_agree f g (suc rows) x all fits = ground (arith, eq_of_agree f g rows x)
