-- ===== src/Units/Examples.antt =====
-- Sizes that the theorem applies to; a part below a hundredth is small.
use librd.Common.{ℕ, ◌*◌, ◌<◌, ◌≤◌, ◌≡◌, refl, arith, Bool, false, List, [], ◌∷◌, ◌++◌, All, ltb}
use librd.Common.Run.{ok}
use librd.Units.{SizeUnit, whole, size2str, find_size}
use librd.Units.Choice.{table, show, size2str-show}

abbrev below_percent : ℕ → ℕ → Bool
below_percent sub val = ltb (sub * 100) val

size2str-show_example :
    (front : List SizeUnit) × (u : SizeUnit) × (back : List SizeUnit) × (table false
      ≡ front ++ u ∷ back)
    × All (λ v. 5_500_000 < SizeUnit.val v) front
    × (u.val ≤ 5_500_000)
    × (size2str below_percent 5_500_000 false ≡ ok (show below_percent 5_500_000 u))
size2str-show_example = size2str-show below_percent 5_500_000 false (omega arith)

two_kibi : size2str below_percent 2048 false ≡ ok (whole 2 (b'K' ∷ b'i' ∷ []))
unfolding size2str find_size
two_kibi = refl
