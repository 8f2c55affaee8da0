-- ===== src/Units.antt =====
-- rdunits.c and rdunits.h: rd_size2str, up to the text that snprintf formats. `is_small` is the test in
-- `float` of the part behind the point.
pub mod Choice
mod Examples
use librd.Common.{
  ℕ, ◌/◌, ◌%◌, ◌*◌, Bool, ◌||◌, Option, none, some, List, [], ◌∷◌, ltb, ◌==◌, if◌then◌else◌,
}
use librd.Common.Run.{Run, ok, fault, ◌>>=◌}

-- an entry of `sizes`: the letters and the factor
pub record SizeUnit : Type 0 where
  pub suffix : List ℕ
  pub val : ℕ

-- what is formatted: a whole number of units, or the quotient of two numbers
pub data Shown : Type 0 where
  whole : ℕ → List ℕ → Shown
  quotient : ℕ → ℕ → List ℕ → Shown

abbrev unit_of : List ℕ → ℕ → SizeUnit
unit_of suffix val = record { suffix = suffix; val = val }

-- `sizes[0]` and `sizes[1]`
abbrev pub iec : List SizeUnit
iec =
    unit_of (b'P' ∷ b'i' ∷ []) 1_125_899_906_842_624
    ∷ unit_of (b'T' ∷ b'i' ∷ []) 1_099_511_627_776
    ∷ unit_of (b'G' ∷ b'i' ∷ []) 1_073_741_824
    ∷ unit_of (b'M' ∷ b'i' ∷ []) 1_048_576
    ∷ unit_of (b'K' ∷ b'i' ∷ []) 1024
    ∷ unit_of [] 0
    ∷ []

abbrev pub si : List SizeUnit
si =
    unit_of (b'P' ∷ []) 1_000_000_000_000_000
    ∷ unit_of (b'T' ∷ []) 1_000_000_000_000
    ∷ unit_of (b'G' ∷ []) 1_000_000_000
    ∷ unit_of (b'M' ∷ []) 1_000_000
    ∷ unit_of (b'K' ∷ []) 1000
    ∷ unit_of [] 0
    ∷ []

-- `while (sizes[si][++i].val > size)`; beyond the table is a `fault`
unfoldable pub find_size : List SizeUnit → ℕ → Run SizeUnit
find_size [] size = fault
find_size (u ∷ us) size = let rest = find_size us size in if ltb size u.val then rest else ok u

-- `x / y` and `x % y` of C, where the division by 0 is a `fault`
abbrev pub div_c : ℕ → ℕ → Run ℕ
div_c x y = if y == 0 then fault else ok (x / y)

abbrev pub mod_c : ℕ → ℕ → Run ℕ
mod_c x y = if y == 0 then fault else ok (x % y)

-- the number in whole units
abbrev pub exact : ℕ → SizeUnit → Run Shown
exact size u = div_c size u.val >>= λ n. ok (whole n u.suffix)

-- the two branches for a unit with a factor
abbrev pub in_units : (ℕ → ℕ → Bool) → ℕ → SizeUnit → Run Shown
in_units is_small size u = mod_c size u.val >>= λ sub.
    if (sub == 0) || is_small sub u.val then exact size u else ok (quotient size u.val u.suffix)

-- rd_size2str, without the unit's own suffix that is appended to all results; `use_si` is `si`
unfoldable pub size2str : (ℕ → ℕ → Bool) → ℕ → Bool → Run Shown
unfolding find_size
size2str is_small size use_si =
    let shown = find_size (if use_si then si else iec) size >>= λ u.
    if ltb size u.val || (u.val == 0) then ok (whole size u.suffix) else in_units is_small size u in
    if size == 0 then ok (whole 0 []) else shown
