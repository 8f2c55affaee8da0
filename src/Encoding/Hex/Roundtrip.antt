-- ===== src/Encoding/Hex/Roundtrip.antt =====
-- What rd_bin2hex writes for each size of the destination, and rd_hex2bin on it.
use librd.Common.{
  ℕ, zero, suc, ◌+◌, ◌-◌, ◌*◌, ◌/◌, ◌%◌, ◌≤◌, ◌≡◌, refl, ◌∙◌, ap, arith, true, none, some, List, [],
  ◌∷◌, ◌++◌, length, take, ltb, bit_or, All, IsByte, Bool-cases, inl, inr, ltb→lt,
}
use librd.Common.Int.{negsuc}
use librd.Common.Run.{ok, map_run}
use librd.Encoding.Hex.{hex_digit, classify, digit, bin2hex, hex2bin, hex2bin_loop}
use librd.Encoding.Hex.Digits.{classify-hex_digit, high_digit, low_digit, join_digits}

-- two digits for each byte, the higher one first
abbrev pub hex_text : List ℕ → List ℕ
hex_text [] = []
hex_text (b ∷ s) = hex_digit (b / 16) ∷ hex_digit (b % 16) ∷ hex_text s

take-nil : (n : ℕ) → take {A = ℕ} n [] ≡ []
take-nil zero = refl
take-nil (suc n) = refl

-- rd_bin2hex writes the digits of the first `(dstlen - 2) / 2` bytes, or of all if there are fewer,
-- and ends them with a zero exactly if `dstlen` is not 0.
pub bin2hex-hex_text :
    (bin : List ℕ) (dstlen : ℕ)
    → All IsByte bin
    → bin2hex bin dstlen
      ≡ record { text = hex_text (take ((dstlen - 2) / 2) bin); terminated = ltb 0 dstlen }
unfolding bin2hex
bin2hex-hex_text [] dstlen bytes = rw take-nil refl
bin2hex-hex_text (b ∷ s) dstlen (byte, bytes) = elim (Bool-cases (ltb 3 dstlen)) [
  | inl large ↦
      let more : (dstlen - 2) / 2 ≡ suc ((dstlen - 2 - 2) / 2) =
        omega (arith, ltb→lt 3 dstlen large) in
      let open_end : ltb 0 (dstlen - 2) ≡ ltb 0 dstlen = ground arith in
      rw (large, more, bin2hex-hex_text s (dstlen - 2) bytes, high_digit b byte, low_digit b)
        (rw open_end refl)
  | inr small ↦ let few : (dstlen - 2) / 2 ≡ 0 = ground arith in rw (small, few) refl
]

module _ (s : List ℕ) (c v room : ℕ) (is : classify c ≡ digit v) where
  first_digit :
      hex2bin_loop (c ∷ s) none (suc room) none
      ≡ hex2bin_loop s none (suc room) (some (v * 16 % 256))
  unfolding hex2bin_loop
  first_digit = ground arith

  second_digit :
      (hi : ℕ)
      → hex2bin_loop (c ∷ s) none (suc room) (some hi)
        ≡ map_run (◌∷◌ (bit_or hi v)) (hex2bin_loop s none room none)
  unfolding hex2bin_loop
  second_digit hi = ground arith

hex2bin_loop-hex_text :
    (bin rest : List ℕ) (room : ℕ)
    → All IsByte bin
    → length bin ≤ room
    → hex2bin_loop (hex_text bin ++ 0 ∷ rest) none room none ≡ ok bin
unfolding hex2bin_loop classify
hex2bin_loop-hex_text [] rest room bytes fits = refl
hex2bin_loop-hex_text (b ∷ s) rest zero bytes fits = absurd (omega arith)
hex2bin_loop-hex_text (b ∷ s) rest (suc room) (byte, bytes) fits =
    first_digit (hex_digit (b % 16) ∷ hex_text s ++ 0 ∷ rest) (hex_digit (b / 16)) (b / 16) room
      (classify-hex_digit (b / 16) (omega arith))
    ∙ (second_digit (hex_text s ++ 0 ∷ rest) (hex_digit (b % 16)) (b % 16) room
          (classify-hex_digit (b % 16) (omega arith)) (b / 16 * 16 % 256)
        ∙ rw (join_digits b byte, hex2bin_loop-hex_text s rest room bytes (omega arith)) refl)

take_all : (n : ℕ) (s : List ℕ) → length s ≤ n → take n s ≡ s
take_all zero [] h = refl
take_all zero (x ∷ s) h = absurd (omega arith)
take_all (suc n) [] h = refl
take_all (suc n) (x ∷ s) h = ap (λ t. x ∷ t) (take_all n s (omega arith))

-- A destination of `2 * n + 2` bytes takes the digits of `n` bytes and the zero, and rd_hex2bin on
-- that text, read up to the zero into a buffer of `n` bytes or more, gives the bytes back.
pub hex2bin-bin2hex :
    (bin rest : List ℕ) (dstlen room : ℕ)
    → All IsByte bin
    → 2 * length bin + 2 ≤ dstlen
    → length bin ≤ room
    → ((bin2hex bin dstlen).terminated ≡ true)
      × (hex2bin ((bin2hex bin dstlen).text ++ 0 ∷ rest) (negsuc 0) room ≡ ok bin)
unfolding hex2bin
hex2bin-bin2hex bin rest dstlen room bytes large fits =
    let whole : take ((dstlen - 2) / 2) bin ≡ bin = take_all ((dstlen - 2) / 2) bin (omega arith) in
    rw (bin2hex-hex_text bin dstlen bytes, whole)
      (ground arith, hex2bin_loop-hex_text bin rest room bytes fits)
