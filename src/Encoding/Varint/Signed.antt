-- ===== src/Encoding/Varint/Signed.antt =====
-- The signed varints: what is decoded from what was encoded.
use librd.Common.{
  ℕ, zero, suc, ◌*◌, ◌%◌, ◌^◌, ◌≤◌, ◌<◌, ◌≡◌, refl, arith, List, ◌++◌, length, ◌∙◌, ap, shl64,
  bit_and,
}
use librd.Common.Bits.{bit_xor_self, bit_and-mask}
use librd.Common.Int.{ℤ, pos, negsuc, pos_part}
use mathlib.Core.Bool.{Bool}
use librd.Common.Run.{Run, ok}
use librd.Encoding.Varint.{encode_u64, encode_s64, decode_u64, decode_s64, sign_result, unfold_sign}
use librd.Encoding.Varint.Roundtrip.{decode-encode}

-- the values of an `int64_t`
abbrev pub IsI64 : ℤ → Type 0
IsI64 (pos n) = n < 2 ^ 63
IsI64 (negsuc n) = n < 2 ^ 63

unfold_sign-even : (n : ℕ) → unfold_sign (n * 2) ≡ n
unfolding unfold_sign
unfold_sign-even n =
    let even : bit_and (n * 2) 1 ≡ 0 = bit_and-mask 1 1 (n * 2) refl ∙ omega arith in
    rw even (omega arith)

encode_s64-eq :
    (room : ℕ) (val : ℤ) → IsI64 val → encode_s64 room val ≡ encode_u64 room (pos_part val * 2)
unfolding encode_s64
encode_s64-eq room (pos n) fits =
    let twice : shl64 (n % 2 ^ 64) 1 ≡ n * 2 = omega arith in ap (encode_u64 room) twice
encode_s64-eq room (negsuc n) fits = ap (encode_u64 room) (bit_xor_self _)

pos_part-lt : (val : ℤ) → IsI64 val → pos_part val * 2 < 2 ^ 64
pos_part-lt (pos n) fits = omega arith
pos_part-lt (negsuc n) fits = omega arith

-- What rd_varint_decode_s64 gives for the varint of `n * 2`, which takes `len` bytes.
sign_result-even :
    (r : Run (ℕ × ℤ)) (n len : ℕ)
    → 1 ≤ len
    → r ≡ ok (n * 2, pos len)
    → sign_result r ≡ ok (pos n, pos len)
sign_result-even r n zero least e = absurd (omega arith)
sign_result-even r n (suc len) least e = rw (e, unfold_sign-even n) refl

-- A 64-bit signed value that is not negative comes back from rd_varint_encode_s64 and
-- rd_varint_decode_s64 through a buffer of ten bytes or more; every negative value comes back as 0.
pub decode_s64-encode_s64 :
    (room : ℕ) (val : ℤ) (rest : List ℕ)
    → IsI64 val
    → 10 ≤ room
    → (bytes : List ℕ) × (encode_s64 room val ≡ record { bytes = bytes; fitted = Bool.true })
      × (decode_s64 (bytes ++ rest) ≡ ok (pos (pos_part val), pos (length bytes)))
unfolding decode_s64
decode_s64-encode_s64 room val rest fits large =
    let (bytes, enc, len, least, most, dec) =
      decode-encode room (pos_part val * 2) rest (pos_part-lt val fits) large in
    (
      bytes,
      encode_s64-eq room val fits ∙ enc,
      sign_result-even (decode_u64 (bytes ++ rest)) (pos_part val) (length bytes) least dec,
    )
