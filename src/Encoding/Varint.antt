-- ===== src/Encoding/Varint.antt =====
-- rd_varint_encode_u64, rd_varint_decode_u64 and their signed versions.
pub mod Roundtrip
pub mod Continuation
pub mod Signed
use librd.Common.{
  ℕ, zero, suc, ◌+◌, ◌-◌, ◌/◌, ◌^◌, ◌%◌, Bool, true, false, List, [], ◌∷◌, length, ltb, leb, ◌==◌,
  if◌then◌else◌, bit_and, bit_or, bit_xor, shl64, shr,
}
use librd.Common.Int.{ℤ, pos, negsuc, sub_ℕ}
use librd.Common.Run.{Run, ok, fault}

-- `-n` for an `int` that is not negative
abbrev pub neg : ℕ → ℤ
neg n = sub_ℕ 0 n

-- What a call of the encoder leaves: the bytes at `dest`, and whether the value fitted.
pub record Written : Type 0 where
  pub bytes : List ℕ
  pub fitted : Bool

abbrev pub prepend : ℕ → Written → Written
prepend b w = record w { bytes = b ∷ w.bytes }

-- rd_varint_encode_u64 with `room` bytes left in the buffer
unfoldable pub encode_u64 : ℕ → ℕ → Written
encode_u64 zero uval = record { bytes = []; fitted = false }
encode_u64 (suc room) uval =
    let more = prepend (bit_or (bit_and uval 255) 128) (encode_u64 room (shr uval 7)) in
    if leb 128 uval then more else record { bytes = bit_and uval 255 ∷ []; fitted = true }

-- the return value of rd_varint_encode_u64
unfoldable pub encoded_len : Written → ℤ
encoded_len w = if w.fitted then pos (length w.bytes) else negsuc 0

-- The test behind the loop of rd_varint_decode_u64: nothing was read, or the last byte, `last`,
-- asks for more.
abbrev short : ℕ → ℕ → Bool
short zero last = true
short (suc n) last = leb 128 last

-- The loop of rd_varint_decode_u64 over the bytes that are left, with `*vlenp`, `bits`, `uval` and
-- the byte that was read last. The result is the value returned and `*vlenp`.
unfoldable pub decode_loop : List ℕ → ℕ → ℕ → ℕ → ℕ → Run (ℕ × ℤ)
decode_loop [] vlen bits uval last = ok (0, if short vlen last then neg (vlen + 1) else pos vlen)
decode_loop (b ∷ s) vlen bits uval last =
    let more = decode_loop s (vlen + 1) (bits + 7) (bit_or uval (shl64 (bit_and b 127) bits)) b in
    if ltb b 128
    then (if ltb 9 vlen
        then ok (0, neg vlen)
        else if ltb bits 64
        then ok (bit_or uval (shl64 b bits), pos (vlen + 1))
        else fault)
    else if ltb bits 64
    then more
    else fault

-- rd_varint_decode_u64 on a buffer of the bytes `buf`
unfoldable pub decode_u64 : List ℕ → Run (ℕ × ℤ)
unfolding decode_loop
decode_u64 buf = decode_loop buf 0 0 0 0

-- `(uint64_t)val`
abbrev pub to_u64 : ℤ → ℕ
to_u64 (pos n) = n % 2 ^ 64
to_u64 (negsuc n) = 2 ^ 64 - 1 - n % 2 ^ 64

abbrev is_negative : ℤ → Bool
is_negative (pos n) = false
is_negative (negsuc n) = true

-- rd_varint_encode_s64
unfoldable pub encode_s64 : ℕ → ℤ → Written
unfolding encode_u64
encode_s64 room val =
    let uval = shl64 (to_u64 val) 1 in
    encode_u64 room (if is_negative val then bit_xor uval uval else uval)

-- `val` of rd_varint_decode_s64, from `uval`: the shift leaves a number below 2 ^ 63
unfoldable pub unfold_sign : ℕ → ℕ
unfold_sign uval = let val = shr uval 1 in if bit_and uval 1 == 0 then val else bit_xor val val

-- what rd_varint_decode_s64 makes of the results of rd_varint_decode_u64
abbrev pub sign_result : Run (ℕ × ℤ) → Run (ℤ × ℤ)
sign_result (ok (uval, pos zero)) = ok (pos 0, pos 0)
sign_result (ok (uval, pos (suc n))) = ok (pos (unfold_sign uval), pos (suc n))
sign_result (ok (uval, negsuc n)) = ok (pos 0, negsuc n)
sign_result fault = fault
sign_result Run.out_of_fuel = Run.out_of_fuel

-- rd_varint_decode_s64
unfoldable pub decode_s64 : List ℕ → Run (ℤ × ℤ)
unfolding decode_u64 unfold_sign
decode_s64 buf = sign_result (decode_u64 buf)
