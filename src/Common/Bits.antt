-- ===== src/Common/Bits.antt =====
-- `|` and `&` as arithmetic: each native operation by its lowest digit, and the laws for fields and
-- masks.
use Prim.Native.Nat.{
  ℕ, zero, suc, ◌+◌, ◌-◌, ◌*◌, ◌/◌, ◌%◌, ◌^◌, ◌≤◌, ◌<◌, min, max, bit_and, bit_or, digits, bitwise,
  bit_and-bitwise, bit_or-bitwise, bit_xor, bit_xor-bitwise, differ,
}
use mathlib.Core.Path.{◌≡◌, refl, ap, ◌∙◌}
use native.Mathlib.Omega.{arith}
use native.Mathlib.Nat.{pow-suc}

module _ (rest : ℕ → ℕ) (join : ℕ → ℕ → ℕ) where
  -- One digit: what is above it, and the two lowest digits joined.
  abbrev with_low : ℕ → ℕ → ℕ → ℕ
  with_low x y high = high * 2 + join (x % 2) (y % 2)

  -- A round more than the first number needs changes nothing.
  spare_round : (n x y : ℕ) → x ≤ n → digits rest join (suc n) x y ≡ digits rest join n x y
  spare_round zero zero y fits = refl
  spare_round (suc n) zero y fits = refl
  spare_round zero (suc x) y fits = elim fits [ ]
  spare_round (suc n) (suc x) y fits =
      ap (with_low (suc x) y) (spare_round n (suc x / 2) (y / 2) (omega arith))

  spare_rounds : (k x y : ℕ) → digits rest join (k + x) x y ≡ digits rest join x x y
  spare_rounds zero x y = ap (λ n. digits rest join n x y) (omega arith)
  spare_rounds (suc k) x y =
      let grown : suc k + x ≡ suc (k + x) = omega arith in
      ap (λ n. digits rest join n x y) grown
      ∙ (spare_round (k + x) x y (omega arith) ∙ spare_rounds k x y)

  peel :
      (x y : ℕ)
      → bitwise rest join (suc x) y ≡ with_low (suc x) y (bitwise rest join (suc x / 2) (y / 2))
  peel x y = ap (with_low (suc x) y) (
      ap (λ n. digits rest join n (suc x / 2) (y / 2)) (omega arith)
      ∙ spare_rounds (x - suc x / 2) (suc x / 2) (y / 2))

pub bit_or_low : (x y : ℕ) → bit_or x y ≡ bit_or (x / 2) (y / 2) * 2 + max (x % 2) (y % 2)
bit_or_low zero y = omega (arith, bit_or-bitwise 0 y, bit_or-bitwise 0 (y / 2))
bit_or_low (suc x) y =
    omega
      (arith, bit_or-bitwise (suc x) y, bit_or-bitwise (suc x / 2) (y / 2), peel (λ n. n) max x y)

pub bit_and_low : (x y : ℕ) → bit_and x y ≡ bit_and (x / 2) (y / 2) * 2 + min (x % 2) (y % 2)
bit_and_low zero y = omega (arith, bit_and-bitwise 0 y, bit_and-bitwise 0 (y / 2))
bit_and_low (suc x) y =
    omega
      (arith, bit_and-bitwise (suc x) y, bit_and-bitwise (suc x / 2) (y / 2), peel (λ n. 0) min x y)

pub zero-bit_or : (y : ℕ) → bit_or 0 y ≡ y
zero-bit_or y = bit_or-bitwise 0 y

pub zero-bit_and : (y : ℕ) → bit_and 0 y ≡ 0
zero-bit_and y = bit_and-bitwise 0 y

-- `r | (q << k)` is a sum when `r` fits in `k` bits.
pub bit_or-add : (k q r : ℕ) → r < 2 ^ k → bit_or r (q * 2 ^ k) ≡ q * 2 ^ k + r
bit_or-add zero q zero fits = omega (arith, zero-bit_or (q * 1))
bit_or-add zero q (suc r) fits = absurd (omega arith)
bit_or-add (suc k) q r fits =
    let wide : q * 2 ^ suc k ≡ 2 * (q * 2 ^ k) =
      omega (arith, ap (λ (p : ℕ). q * p) (pow-suc 2 k)) in
    ground (
      arith,
      wide,
      pow-suc 2 k,
      bit_or_low r (q * 2 ^ suc k),
      bit_or-add k q (r / 2) (omega (arith, pow-suc 2 k)),
    )

bit_and_none : (bound y : ℕ) → y ≤ bound → bit_and y 0 ≡ 0
bit_and_none zero zero fits = refl
bit_and_none zero (suc y) fits = absurd (omega arith)
bit_and_none (suc bound) zero fits = refl
bit_and_none (suc bound) (suc y) fits =
    omega (arith, bit_and_low (suc y) 0, bit_and_none bound (suc y / 2) (omega arith))

pub bit_and-zero : (y : ℕ) → bit_and y 0 ≡ 0
bit_and-zero y = bit_and_none y y (omega arith)

-- The low field under a mask of `k` ones, which is the number `m`.
bit_and-field : (k m q r : ℕ) → m + 1 ≡ 2 ^ k → r < 2 ^ k → bit_and (r + q * 2 ^ k) m ≡ r
bit_and-field zero zero q r e fits = omega (arith, bit_and-zero (r + q * 1))
bit_and-field zero (suc m) q r e fits = absurd (omega arith)
bit_and-field (suc k) m q r e fits =
    let wide : q * 2 ^ suc k ≡ 2 * (q * 2 ^ k) =
      omega (arith, ap (λ (p : ℕ). q * p) (pow-suc 2 k)) in
    ground (
      arith,
      wide,
      pow-suc 2 k,
      bit_and_low (r + q * 2 ^ suc k) m,
      bit_and-field k (m / 2) q (r / 2) (omega (arith, pow-suc 2 k)) (omega (arith, pow-suc 2 k)),
    )

-- A mask of `k` ones is the remainder by `2 ^ k`.
pub bit_and-mask : (k m x : ℕ) → m + 1 ≡ 2 ^ k → bit_and x m ≡ x % 2 ^ k
bit_and-mask k m x e =
    let parts : x % 2 ^ k + x / 2 ^ k * 2 ^ k ≡ x = grind arith in
    rw parts at (bit_and-field k m (x / 2 ^ k) (x % 2 ^ k) e (grind arith))

-- A number differs from itself in no digit.
bit_xor_same : (bound x : ℕ) → x ≤ bound → bit_xor x x ≡ 0
bit_xor_same bound zero fits = refl
bit_xor_same zero (suc x) fits = absurd (omega arith)
bit_xor_same (suc bound) (suc x) fits = omega (
  arith,
  bit_xor-bitwise (suc x) (suc x),
  bit_xor-bitwise (suc x / 2) (suc x / 2),
  peel (λ n. n) differ (suc x) (suc x),
  peel (λ n. n) differ x (suc x),
  differ_same (suc x % 2),
  bit_xor_same bound (suc x / 2) (omega arith),
)
  where
    differ_same : (d : ℕ) → differ d d ≡ 0
    differ_same zero = refl
    differ_same (suc d) = differ_same d

pub bit_xor_self : (x : ℕ) → bit_xor x x ≡ 0
bit_xor_self x = bit_xor_same x x (omega arith)
