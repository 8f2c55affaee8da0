-- ===== src/Rand/Examples.antt =====
-- Arrays that the theorems apply to.
use mathlib.Core.List.{Perm}
use librd.Common.{ℕ, ◌+◌, ◌*◌, ◌≡◌, refl, List, [], ◌∷◌}
use librd.Common.Run.{ok}
use librd.Rand.{jitter, array_shuffle, shuffle_loop}
use librd.Rand.Shuffle.{array_shuffle-perm}

abbrev draw : ℕ → ℕ
draw i = i * 7 + 3

abbrev letters : List ℕ
letters = 97 ∷ 98 ∷ 99 ∷ 100 ∷ []

array_shuffle-perm_example : (ys : List ℕ) × (array_shuffle draw letters ≡ ok ys) × Perm letters ys
array_shuffle-perm_example = array_shuffle-perm draw letters

shuffled : array_shuffle draw letters ≡ ok (98 ∷ 100 ∷ 99 ∷ 97 ∷ [])
unfolding array_shuffle shuffle_loop jitter
shuffled = refl

-- a number between 10 and 12 that is 15
beyond : jitter 10 12 5 ≡ 15
unfolding jitter
beyond = refl
