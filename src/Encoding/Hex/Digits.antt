-- ===== src/Encoding/Hex/Digits.antt =====
-- The digits of rd_bin2hex, as rd_hex2bin reads them.
use librd.Common.{ℕ, ◌+◌, ◌*◌, ◌/◌, ◌%◌, ◌<◌, ◌≡◌, refl, ap, arith, true, bit_and, bit_or, shr}
use librd.Common.Bits.{bit_and-mask}
use librd.Common.Rows.{agree, eq_of_agree}
use librd.Encoding.Hex.{hex_digit, CharClass, nul, outside, ignored, other, digit, classify}

-- a class as a number
abbrev class_code : CharClass → ℕ
class_code nul = 0
class_code outside = 1
class_code ignored = 2
class_code other = 3
class_code (digit v) = 4 + v

class_code-digit : (c : CharClass) (v : ℕ) → class_code c ≡ 4 + v → c ≡ digit v
class_code-digit nul v e = absurd (omega arith)
class_code-digit outside v e = absurd (omega arith)
class_code-digit ignored v e = absurd (omega arith)
class_code-digit other v e = absurd (omega arith)
class_code-digit (digit u) v e = let same : u ≡ v = omega arith in ap digit same

digit_code : ℕ → ℕ
digit_code n = class_code (classify (hex_digit n))

pub classify-hex_digit : (n : ℕ) → n < 16 → classify (hex_digit n) ≡ digit n
unfolding digit_code
classify-hex_digit n fits =
    class_code-digit (classify (hex_digit n)) n
      (eq_of_agree digit_code (λ v. 4 + v) 16 n table fits)
  where
    table : agree digit_code (λ v. 4 + v) 16 ≡ true
    table = unfold agree classify in refl

pub high_digit : (b : ℕ) → b < 256 → shr (bit_and b 255) 4 ≡ b / 16
high_digit b fits = rw (bit_and-mask 8 255 b refl) (omega arith)

pub low_digit : (b : ℕ) → bit_and b 15 ≡ b % 16
low_digit b = bit_and-mask 4 15 b refl

-- `*d = hi << 4` and then `*d |= lo`
pub join_digits : (b : ℕ) → b < 256 → bit_or (b / 16 * 16 % 256) (b % 16) ≡ b
join_digits b fits =
    eq_of_agree (λ n. bit_or (n / 16 * 16 % 256) (n % 16)) (λ n. n) 256 b table fits
  where
    table : agree (λ n. bit_or (n / 16 * 16 % 256) (n % 16)) (λ n. n) 256 ≡ true
    table = unfold agree in refl
