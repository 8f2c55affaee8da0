-- ===== src/Common/Digit.antt =====
-- Single binary digits of a number, and the operations `|`, `&` and `~` on them.
use native.Mathlib.Nat.{pow-suc}
use librd.Common.Tests.{◌==◌, if◌then◌else◌}
use Prim.Native.Nat.{
  ℕ, zero, suc, ◌+◌, ◌-◌, ◌*◌, ◌/◌, ◌%◌, ◌^◌, ◌≤◌, ◌<◌, min, max, bit_and, bit_or,
}
use mathlib.Core.Path.{◌≡◌, refl, ap, ◌∙◌}
use native.Mathlib.Omega.{arith}
use librd.Common.Bits.{bit_or_low, bit_and_low, bit_and-zero, zero-bit_and}

-- the digit of `x` at place `k`
abbrev pub digit_at : ℕ → ℕ → ℕ
digit_at x zero = x % 2
digit_at x (suc k) = digit_at (x / 2) k

pub digit_at-le-one : (x k : ℕ) → digit_at x k ≤ 1
digit_at-le-one x zero = omega arith
digit_at-le-one x (suc k) = digit_at-le-one (x / 2) k

pub digit_at-zero : (k : ℕ) → digit_at 0 k ≡ 0
digit_at-zero zero = refl
digit_at-zero (suc k) = digit_at-zero k

pub digit_at-bit_or : (x y k : ℕ) → digit_at (bit_or x y) k ≡ max (digit_at x k) (digit_at y k)
digit_at-bit_or x y zero = omega (arith, bit_or_low x y)
digit_at-bit_or x y (suc k) =
    let half : bit_or x y / 2 ≡ bit_or (x / 2) (y / 2) = omega (arith, bit_or_low x y) in
    ap (λ v. digit_at v k) half ∙ digit_at-bit_or (x / 2) (y / 2) k

pub digit_at-bit_and : (x y k : ℕ) → digit_at (bit_and x y) k ≡ min (digit_at x k) (digit_at y k)
digit_at-bit_and x y zero = omega (arith, bit_and_low x y)
digit_at-bit_and x y (suc k) =
    let half : bit_and x y / 2 ≡ bit_and (x / 2) (y / 2) = omega (arith, bit_and_low x y) in
    ap (λ v. digit_at v k) half ∙ digit_at-bit_and (x / 2) (y / 2) k

-- `x & (1 << k)`
pub bit_and-pow : (x k : ℕ) → bit_and x (2 ^ k) ≡ digit_at x k * 2 ^ k
bit_and-pow x zero = omega (arith, bit_and_low x 1, bit_and-zero (x / 2))
bit_and-pow x (suc k) =
    let half : 2 ^ suc k / 2 ≡ 2 ^ k = omega (arith, pow-suc 2 k) in
    let low : bit_and x (2 ^ suc k)
        ≡ bit_and (x / 2) (2 ^ suc k / 2) * 2 + min (x % 2) (2 ^ suc k % 2) =
      bit_and_low x (2 ^ suc k) in
    let rest : bit_and (x / 2) (2 ^ suc k / 2) ≡ digit_at (x / 2) k * 2 ^ k =
      ap (bit_and (x / 2)) half ∙ bit_and-pow (x / 2) k in
    omega (arith, pow-suc 2 k, ap (λ (t : ℕ). digit_at (x / 2) k * t) (pow-suc 2 k))

pub digit_at-pow : (k j : ℕ) → digit_at (2 ^ k) j ≡ (if k == j then 1 else 0)
digit_at-pow zero zero = refl
digit_at-pow zero (suc j) = ground (arith, digit_at-zero j)
digit_at-pow (suc k) zero = ground (arith, pow-suc 2 k)
digit_at-pow (suc k) (suc j) =
    let half : 2 ^ suc k / 2 ≡ 2 ^ k = omega (arith, pow-suc 2 k) in
    let same : (suc k == suc j) ≡ (k == j) = ground arith in
    rw same (ap (λ v. digit_at v j) half ∙ digit_at-pow k j)

-- `~y` on words of `w` bits
pub digit_at-complement :
    (w y j : ℕ) → y < 2 ^ w → j < w → digit_at (2 ^ w - 1 - y) j ≡ 1 - digit_at y j
digit_at-complement zero y j fits low = absurd (omega arith)
digit_at-complement (suc w) y zero fits low = omega (arith, pow-suc 2 w)
digit_at-complement (suc w) y (suc j) fits low =
    let half : (2 ^ suc w - 1 - y) / 2 ≡ 2 ^ w - 1 - y / 2 = omega (arith, pow-suc 2 w) in
    ap (λ v. digit_at v j) half
    ∙ digit_at-complement w (y / 2) j (omega (arith, pow-suc 2 w)) (omega arith)

pub bit_or-lt_pow : (w x y : ℕ) → x < 2 ^ w → y < 2 ^ w → bit_or x y < 2 ^ w
bit_or-lt_pow zero zero zero p q = omega (arith, bit_or_low 0 0)
bit_or-lt_pow zero (suc x) y p q = absurd (omega arith)
bit_or-lt_pow zero zero (suc y) p q = absurd (omega arith)
bit_or-lt_pow (suc w) x y p q = omega (
  arith,
  pow-suc 2 w,
  bit_or_low x y,
  bit_or-lt_pow w (x / 2) (y / 2) (omega (arith, pow-suc 2 w)) (omega (arith, pow-suc 2 w)),
)

bit_and_le_fuel : (n x y : ℕ) → x ≤ n → bit_and x y ≤ x
bit_and_le_fuel n zero y h = omega (arith, zero-bit_and y)
bit_and_le_fuel zero (suc x) y h = absurd (omega arith)
bit_and_le_fuel (suc n) (suc x) y h =
    omega (arith, bit_and_low (suc x) y, bit_and_le_fuel n (suc x / 2) (y / 2) (omega arith))

pub bit_and-le : (x y : ℕ) → bit_and x y ≤ x
bit_and-le x y = bit_and_le_fuel x x y (omega arith)

-- A number of `k` digits has none above them.
pub digit_at-high : (k x j : ℕ) → x < 2 ^ k → k ≤ j → digit_at x j ≡ 0
digit_at-high zero zero j fits h = digit_at-zero j
digit_at-high zero (suc x) j fits h = absurd (omega arith)
digit_at-high (suc k) x zero fits h = absurd (omega arith)
digit_at-high (suc k) x (suc j) fits h =
    digit_at-high k (x / 2) j (omega (arith, pow-suc 2 k)) (omega arith)
