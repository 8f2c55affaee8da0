-- ===== src/Encoding/Hex.antt =====
-- rd_bin2hex and rd_hex2bin. `char` is signed, as on the usual platforms.
pub mod Digits
pub mod Roundtrip
use librd.Common.{
  ℕ, zero, suc, ◌+◌, ◌-◌, ◌*◌, ◌/◌, ◌%◌, ◌^◌, Bool, true, false, ◌&&◌, ◌||◌, Option, none, some,
  List, [], ◌∷◌, length, get_or, ltb, leb, ◌==◌, if◌then◌else◌, bit_and, bit_or, shr,
}
use librd.Common.Int.{ℤ, pos, negsuc}
use librd.Common.Run.{Run, ok, fault, map_run}

-- `map` of rd_bin2hex
abbrev pub hex_map : List ℕ
hex_map =
    b'0' ∷ b'1' ∷ b'2' ∷ b'3' ∷ b'4' ∷ b'5' ∷ b'6' ∷ b'7' ∷ b'8' ∷ b'9' ∷ b'a' ∷ b'b' ∷ b'c' ∷ b'd'
    ∷ b'e' ∷ b'f' ∷ []

abbrev pub hex_digit : ℕ → ℕ
hex_digit n = get_or hex_map n 0

-- What rd_bin2hex leaves in `dst`; it returns the length of `text`.
pub record HexText : Type 0 where
  pub text : List ℕ
  pub terminated : Bool

abbrev two_digits : ℕ → HexText → HexText
two_digits b t = record t {
  text = hex_digit (shr (bit_and b 255) 4) ∷ hex_digit (bit_and b 15) ∷ t.text;
}

-- rd_bin2hex with `room` bytes left in `dst`; the zero is written if there is room behind the text
unfoldable pub bin2hex : List ℕ → ℕ → HexText
bin2hex [] room = record { text = []; terminated = ltb 0 room }
bin2hex (b ∷ s) room =
    let more = two_digits b (bin2hex s (room - 2)) in
    if ltb 3 room then more else record { text = []; terminated = ltb 0 room }

-- How the loop of rd_hex2bin reads a character: the end of the string, an index out of `ignore`, an
-- ignored one, a digit with its value, or any other.
pub data CharClass : Type 0 where
  nul outside ignored other : CharClass
  digit : ℕ → CharClass

-- the characters that `ignore` lists
abbrev is_ignored : ℕ → Bool
is_ignored c = c == 32 || c == 9 || c == 46 || c == 58 || c == 10 || c == 13

unfoldable pub classify : ℕ → CharClass
classify c =
    if c == 0
    then nul
    else if leb 128 c
    then outside
    else if is_ignored c
    then ignored
    else if leb b'0' c && leb c b'9'
    then digit (c - b'0')
    else if leb b'A' c && leb c b'F'
    then digit (c - b'A' + 10)
    else if leb b'a' c && leb c b'f'
    then digit (c - b'a' + 10)
    else other

-- `end - s`; `none` where the scan goes on to the zero
abbrev at_end : Option ℕ → Bool
at_end none = false
at_end (some left) = left == 0

abbrev advance : Option ℕ → Option ℕ
advance none = none
advance (some left) = some (left - 1)

-- The loop of rd_hex2bin over the memory from `s` on, with `dend - d` bytes of room, and `*d` after
-- an odd number of digits. The result is the bytes written.
unfoldable pub hex2bin_loop : List ℕ → Option ℕ → ℕ → Option ℕ → Run (List ℕ)
hex2bin_loop [] left room half = fault
hex2bin_loop (c ∷ s) left room half =
    let again = hex2bin_loop s (advance left) room half in
    let first = λ (v : ℕ). hex2bin_loop s (advance left) room (some (v * 16 % 256)) in
    let second = λ (byte : ℕ). map_run (◌∷◌ byte) (hex2bin_loop s (advance left) (room - 1) none) in
    elim (classify c) [
      | nul ↦ ok []
      | outside ↦ if at_end left || room == 0 then ok [] else fault
      | ignored ↦ if at_end left || room == 0 then ok [] else again
      | other ↦ ok []
      | digit v ↦
          if at_end left || room == 0
          then ok []
          else elim half [ none ↦ first v | some hi ↦ second (bit_or hi v) ]
    ]

-- `end`, from `inlen`
abbrev pub scan_left : ℤ → Option ℕ
scan_left (pos n) = some n
scan_left (negsuc zero) = none
scan_left (negsuc (suc n)) = some 0

-- rd_hex2bin; it returns the length of the result
unfoldable pub hex2bin : List ℕ → ℤ → ℕ → Run (List ℕ)
unfolding hex2bin_loop
hex2bin hexstr inlen dstlen = hex2bin_loop hexstr (scan_left inlen) dstlen none
