-- ===== src/Bitvec/Examples.antt =====
-- Bit vectors at concrete bits, with the compiler's builtins as functions.
use native.Mathlib.Nat.{pow-suc}
use librd.Common.{
  ℕ, zero, suc, ◌+◌, ◌-◌, ◌*◌, ◌/◌, ◌%◌, ◌^◌, ◌≤◌, ◌<◌, ◌≡◌, ◌≢◌, ◌⊎◌, refl, arith, inl, inr, false,
  [], ◌∷◌, length, All, leb, ◌==◌, if◌then◌else◌, Bool-cases, ==_iff,
}
use librd.Common.Digit.{digit_at}
use librd.Common.Int.{pos, negsuc}
use librd.Common.Run.{ok}
use librd.Bitvec.{
  Bitvec, IsBitvec, Builtins, op, set_op, reset_op, test_op, ffs_op, fxs, as_int, bit,
}
use librd.Bitvec.Op.{tested, test-set_op, test-reset_op}
use librd.Bitvec.Search.{IsLowest, fxs-ffs_op}

-- the lowest digit, from 1, of a number below `2 ^ n`
abbrev lowest : ℕ → ℕ → ℕ
lowest zero x = 1
lowest (suc n) x = if x % 2 == 1 then 1 else suc (lowest n (x / 2))

lowest_pos : (n x : ℕ) → 0 < lowest n x
lowest_pos zero x = omega arith
lowest_pos (suc n) x = ground arith

lowest_at : (n x : ℕ) → x ≤ n → x ≢ 0 → digit_at x (lowest n x - 1) ≡ 1
lowest_at zero zero h some = absurd (some refl)
lowest_at zero (suc x) h some = absurd (omega arith)
lowest_at (suc n) x h some = elim (Bool-cases (x % 2 == 1)) [
  | inl odd ↦ rw odd ((==_iff (x % 2) 1).0 odd)
  | inr even ↦
      let place : suc (lowest n (x / 2)) - 1 ≡ suc (lowest n (x / 2) - 1) =
        omega (arith, lowest_pos n (x / 2)) in
      rw (even, place) (lowest_at n (x / 2) (omega arith) (ground arith))
]

lowest_least : (n x k : ℕ) → k + 1 < lowest n x → digit_at x k ≡ 0
lowest_least zero x k h = absurd (omega arith)
lowest_least (suc n) x zero h = ground arith
lowest_least (suc n) x (suc k) h = elim (Bool-cases (x % 2 == 1)) [
  | inl odd ↦ let top : k + 2 < 1 = ground arith in absurd (omega arith)
  | inr even ↦ lowest_least n (x / 2) k (ground arith)
]

-- the zeros above the highest digit, among `n` digits
abbrev zeros : ℕ → ℕ → ℕ
zeros zero x = 0
zeros (suc n) x = if leb (2 ^ n) x then 0 else suc (zeros n x)

digit_at-highest : (n x : ℕ) → 2 ^ n ≤ x → x < 2 ^ suc n → digit_at x n ≡ 1
digit_at-highest zero x p q = omega arith
digit_at-highest (suc n) x p q =
    digit_at-highest n (x / 2) (omega (arith, pow-suc 2 n))
      (omega (arith, pow-suc 2 n, pow-suc 2 (suc n)))

zeros_place : (n x : ℕ) → x ≢ 0 → x < 2 ^ n → (zeros n x < n) × (digit_at x (n - 1 - zeros n x) ≡ 1)
zeros_place zero x some fits = absurd (some (omega arith))
zeros_place (suc n) x some fits = elim (Bool-cases (leb (2 ^ n) x)) [
  | inl top ↦
      let place : suc n - 1 - 0 ≡ n = omega arith in
      rw (top, place) (omega arith, digit_at-highest n x (ground arith) fits)
  | inr low ↦
      let (fewer, on) = zeros_place n x some (ground arith) in
      let place : suc n - 1 - suc (zeros n x) ≡ n - 1 - zeros n x = omega arith in
      rw (low, place) (omega arith, on)
]

zeros_rest :
    (x : ℕ)
    → x ≢ 0
    → x < 2 ^ 31
    → (0 < suc (zeros 31 x)) × (suc (zeros 31 x) < 32) × (digit_at x (31 - suc (zeros 31 x)) ≡ 1)
zeros_rest x some low =
    let (fewer, on) = zeros_place 31 x some low in
    let place : 31 - suc (zeros 31 x) ≡ 31 - 1 - zeros 31 x = omega arith in
    (omega arith, omega arith, rw place on)

abbrev clz : ℕ → ℕ
clz x = if leb (2 ^ 31) x then 0 else suc (zeros 31 x)

clz_rest : (x : ℕ) → x ≢ 0 → x < 2 ^ 31 → (0 < clz x) × (clz x < 32) × (digit_at x (31 - clz x) ≡ 1)
clz_rest x some low =
    let below : leb (2 ^ 31) x ≡ false = ground arith in rw below (zeros_rest x some low)

clz_top : (x : ℕ) → 2 ^ 31 ≤ x → clz x ≡ 0
clz_top x top = ground arith

abbrev builtins : Builtins
builtins = record {
  ffs = λ x. lowest x x;
  clz = clz;
  ffs_pos = λ x some. lowest_pos x x;
  ffs_at = λ x some. lowest_at x x (omega arith) some;
  ffs_least = λ x k some h. lowest_least x x k h;
  clz_top = λ x fits top. clz_top x top;
  clz_rest = clz_rest;
}

-- bit 3 of two words
abbrev sample : Bitvec
sample = record { max_bit = 40; words = 8 ∷ 0 ∷ [] }

sample-IsBitvec : IsBitvec sample
sample-IsBitvec = record {
  covered = omega arith;
  bounded = omega arith;
  in_words = (omega arith, (omega arith, tt));
}

-- the highest bit of the first word
abbrev top_bit : Bitvec
top_bit = record { max_bit = 40; words = 2147483648 ∷ 0 ∷ [] }

top_bit-IsBitvec : IsBitvec top_bit
top_bit-IsBitvec = record {
  covered = omega arith;
  bounded = omega arith;
  in_words = (omega arith, (omega arith, tt));
}

set_and_reset :
    ((op sample 33 set_op).0.words ≡ 8 ∷ 2 ∷ []) × ((op sample 3 reset_op).0.words ≡ 0 ∷ 0 ∷ [])
unfolding op
set_and_reset = (refl, refl)

beyond : ((op sample 41 set_op).1 ≡ negsuc 0) × ((op sample 41 test_op).1 ≡ pos 0)
unfolding op
beyond = (refl, refl)

test-set_op_example :
    ((op sample 33 set_op).1 ≡ pos 0)
    × (tested (op sample 33 set_op).0 3 ≡ (if 33 == 3 then as_int (bit 3) else tested sample 3))
test-set_op_example = test-set_op sample 33 sample-IsBitvec (omega arith) 3

test-reset_op_example :
    ((op sample 3 reset_op).1 ≡ pos 0)
    × (tested (op sample 3 reset_op).0 3 ≡ (if 3 == 3 then pos 0 else tested sample 3))
test-reset_op_example = test-reset_op sample 3 sample-IsBitvec (omega arith) 3

fxs-ffs_op_example :
    (All (λ w. w ≡ 0) sample.words × (fxs builtins sample ffs_op ≡ ok (length sample.words * 32)))
    ⊎ ((i : ℕ) × IsLowest sample.words i × (fxs builtins sample ffs_op ≡ ok (i + 1)))
fxs-ffs_op_example = fxs-ffs_op builtins sample sample-IsBitvec
