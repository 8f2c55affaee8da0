-- ===== src/Units/Choice.antt =====
-- Which unit rd_size2str chooses, and what it shows.
use librd.Common.{
  ℕ, ◌/◌, ◌%◌, ◌<◌, ◌≤◌, ◌≡◌, refl, ap, arith, Bool, true, false, ◌||◌, ◌⊎◌, inl, inr, List, [],
  ◌∷◌, ◌++◌, All, ltb, ◌==◌, if◌then◌else◌, Bool-cases,
}
use librd.Common.Run.{ok}
use librd.Units.{SizeUnit, Shown, whole, quotient, iec, si, find_size, in_units, size2str}

-- a table whose last factor is 0
abbrev pub IsClosed : List SizeUnit → Type 0
IsClosed [] = ⊥
IsClosed (u ∷ []) = u.val ≡ 0
IsClosed (u ∷ v ∷ us) = IsClosed (v ∷ us)

find_size-IsClosed :
    (us : List SizeUnit) (size : ℕ)
    → IsClosed us
    → (front : List SizeUnit) × (u : SizeUnit) × (back : List SizeUnit) × (us ≡ front ++ u ∷ back)
      × (find_size us size ≡ ok u)
      × All (λ v. size < SizeUnit.val v) front
      × (u.val ≤ size)
unfolding find_size
find_size-IsClosed [] size h = absurd h
find_size-IsClosed (u ∷ []) size h =
    let here : ltb size u.val ≡ false = ground (arith, h) in
    ([], u, [], refl, rw here refl, tt, omega (arith, h))
find_size-IsClosed (u ∷ v ∷ us) size h = elim (Bool-cases (ltb size u.val)) [
  | inl larger ↦
      let (front, w, back, split, run, above, below) = find_size-IsClosed (v ∷ us) size h in
      (
        u ∷ front,
        w,
        back,
        ap (λ l. u ∷ l) split,
        rw larger run,
        (ground (arith, larger), above),
        below,
      )
  | inr fits ↦ ([], u, v ∷ us, refl, rw fits refl, tt, ground (arith, fits))
]

abbrev pub table : Bool → List SizeUnit
table use_si = if use_si then si else iec

table-IsClosed : (b : Bool) → IsClosed (table b)
table-IsClosed true = refl
table-IsClosed false = refl

-- what is shown for a unit
abbrev pub show : (ℕ → ℕ → Bool) → ℕ → SizeUnit → Shown
show is_small size u =
    if u.val == 0
    then whole size u.suffix
    else if (size % u.val == 0) || is_small (size % u.val) u.val
    then whole (size / u.val) u.suffix
    else quotient size u.val u.suffix

either_ok : (a b : Shown) (c : Bool) → (if c then ok a else ok b) ≡ ok (if c then a else b)
either_ok a b true = refl
either_ok a b false = refl

-- rd_size2str of a size that is not 0 leaves the table at the first unit that is not larger than the
-- size, and shows the number of these units: whole if the rest is 0 or small, and else with its
-- fraction. It does not divide by 0.
pub size2str-show :
    (is_small : ℕ → ℕ → Bool) (size : ℕ) (use_si : Bool)
    → 0 < size
    → (front : List SizeUnit) × (u : SizeUnit) × (back : List SizeUnit) × (table use_si
        ≡ front ++ u ∷ back)
      × All (λ v. size < SizeUnit.val v) front
      × (u.val ≤ size)
      × (size2str is_small size use_si ≡ ok (show is_small size u))
unfolding size2str
size2str-show is_small size use_si some_size =
    let (front, u, back, split, run, above, below) =
      find_size-IsClosed (table use_si) size (table-IsClosed use_si) in
    let not_zero : (size == 0) ≡ false = ground (arith, some_size) in
    let fits : ltb size u.val ≡ false = ground (arith, below) in
    (
      front,
      u,
      back,
      split,
      above,
      below,
      rw (not_zero, run, fits) (shown u (Bool-cases (u.val == 0))),
    )
  where
    shown :
        (u : SizeUnit)
        → ((u.val == 0) ≡ true) ⊎ ((u.val == 0) ≡ false)
        → (if u.val == 0 then ok (whole size u.suffix) else in_units is_small size u)
          ≡ ok (show is_small size u)
    shown u (inl last) = rw last refl
    shown u (inr unit) =
        rw unit (either_ok _ _ ((size % u.val == 0) || is_small (size % u.val) u.val))
