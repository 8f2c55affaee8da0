-- ===== src/Encoding/Examples.antt =====
-- The encodings at concrete values.
use librd.Common.{ℕ, ◌≤◌, ◌≡◌, refl, arith, true, false, List, [], ◌∷◌, ◌++◌, length}
use librd.Common.Int.{pos, negsuc, pos_part}
use librd.Common.Run.{ok, fault}
use librd.Encoding.Varint.{encode_u64, encoded_len, decode_u64, encode_s64, decode_s64}
use librd.Encoding.Varint.Roundtrip.{decode-encode}
use librd.Encoding.Varint.Continuation.{decode-IsContinued, truncated}
use librd.Encoding.Varint.Signed.{decode_s64-encode_s64}
use librd.Encoding.Hex.{bin2hex, hex2bin, classify}
use librd.Encoding.Hex.Roundtrip.{bin2hex-hex_text, hex_text, hex2bin-bin2hex}
use librd.Common.{take, ltb, ◌-◌, ◌/◌}

encode_300 : encode_u64 16 300 ≡ record { bytes = 172 ∷ 2 ∷ []; fitted = true }
unfolding encode_u64
encode_300 = refl

encode_short : encode_u64 1 300 ≡ record { bytes = 172 ∷ []; fitted = false }
unfolding encode_u64
encode_short = refl

decode_300 : decode_u64 (172 ∷ 2 ∷ 7 ∷ []) ≡ ok (300, pos 2)
unfolding decode_u64
decode_300 = refl

decode-encode_example :
    (bytes : List ℕ) × (encode_u64 16 300 ≡ record { bytes = bytes; fitted = true })
    × (encoded_len (encode_u64 16 300) ≡ pos (length bytes))
    × (1 ≤ length bytes)
    × (length bytes ≤ 10)
    × (decode_u64 (bytes ++ 7 ∷ []) ≡ ok (300, pos (length bytes)))
decode-encode_example = decode-encode 16 300 (7 ∷ []) (omega arith) (omega arith)

decode-IsContinued_example : decode_u64 (200 ∷ 201 ∷ []) ≡ truncated 2
decode-IsContinued_example = decode-IsContinued (200 ∷ 201 ∷ []) (omega arith, (omega arith, tt))

decode_s64-encode_s64_example :
    (bytes : List ℕ) × (encode_s64 16 (negsuc 6) ≡ record { bytes = bytes; fitted = true })
    × (decode_s64 (bytes ++ []) ≡ ok (pos (pos_part (negsuc 6)), pos (length bytes)))
decode_s64-encode_s64_example = decode_s64-encode_s64 16 (negsuc 6) [] (omega arith) (omega arith)

-- Seven bytes hold the zero and the digits of three bytes, but take two of them.
bin2hex_seven :
    bin2hex (1 ∷ 171 ∷ 255 ∷ []) 7
    ≡ record { text = b'0' ∷ b'1' ∷ b'a' ∷ b'b' ∷ []; terminated = true }
unfolding bin2hex
bin2hex_seven = refl

hex2bin_mixed : hex2bin (b'A' ∷ b':' ∷ b'b' ∷ 0 ∷ []) (negsuc 0) 4 ≡ ok (171 ∷ [])
unfolding hex2bin classify
hex2bin_mixed = refl

-- Without a zero the character behind the last one is read, although `inlen` ends the text there.
hex2bin_over_read : hex2bin (b'A' ∷ b'b' ∷ []) (pos 2) 4 ≡ fault
unfolding hex2bin classify
hex2bin_over_read = refl

bin2hex-hex_text_example :
    bin2hex (1 ∷ 171 ∷ 255 ∷ []) 7
    ≡ record { text = hex_text (take ((7 - 2) / 2) (1 ∷ 171 ∷ 255 ∷ [])); terminated = ltb 0 7 }
bin2hex-hex_text_example = bin2hex-hex_text (1 ∷ 171 ∷ 255 ∷ []) 7 (omega arith)

hex2bin-bin2hex_example :
    ((bin2hex (1 ∷ 171 ∷ []) 6).terminated ≡ true)
    × (hex2bin ((bin2hex (1 ∷ 171 ∷ []) 6).text ++ 0 ∷ []) (negsuc 0) 2 ≡ ok (1 ∷ 171 ∷ []))
hex2bin-bin2hex_example =
    hex2bin-bin2hex (1 ∷ 171 ∷ []) [] 6 2 (omega arith) (omega arith) (omega arith)
