-- ===== src/Encoding/Varint/Roundtrip.antt =====
-- Decoding what rd_varint_encode_u64 wrote.
use librd.Common.{
  ℕ, zero, suc, ◌+◌, ◌*◌, ◌/◌, ◌^◌, ◌%◌, ◌≤◌, ◌<◌, ◌≡◌, refl, ◌∙◌, ap, arith, true, false, List, [],
  ◌∷◌, ◌++◌, length, ltb, leb, bit_and, bit_or, shl64, inl, inr, Bool-cases, le→not-ltb, lt→ltb,
  ltb→lt, ◌⊎◌,
}
use native.Mathlib.Numerals.{towards_suc}
use librd.Common.Bits.{bit_or-add, bit_and-mask}
use librd.Common.Rows.{agree, eq_of_agree}
use librd.Common.Int.{ℤ, pos}
use librd.Common.Run.{Run, ok}
use librd.Encoding.Varint.{encode_u64, encoded_len, decode_loop, decode_u64}

high_bit : (x : ℕ) → x < 256 → bit_or x 128 ≡ x % 128 + 128
high_bit x fits = eq_of_agree (λ n. bit_or n 128) (λ n. n % 128 + 128) 256 x table fits
  where
    table : agree (λ n. bit_or n 128) (λ n. n % 128 + 128) 256 ≡ true
    table = unfold agree in refl

-- a byte of the encoding that has others after it
pub more_byte : (u : ℕ) → bit_or (bit_and u 255) 128 ≡ u % 128 + 128
more_byte u = rw (bit_and-mask 8 255 u refl) (omega (arith, high_bit (u % 256) (omega arith)))

pub low_byte : (u : ℕ) → u < 128 → bit_and u 255 ≡ u
low_byte u fits = rw (bit_and-mask 8 255 u refl) (omega arith)

-- the seven bits of `c` put above an accumulator of `k` bits
pub put_bits :
    (k acc c : ℕ) → acc < 2 ^ k → c * 2 ^ k < 2 ^ 64 → bit_or acc (shl64 c k) ≡ acc + c * 2 ^ k
put_bits k acc c fits top =
    let whole : shl64 c k ≡ c * 2 ^ k = omega arith in
    rw whole (omega (arith, bit_or-add k c acc fits))

module _ (s : List ℕ) (i k acc last c : ℕ) (fits : acc < 2 ^ k) (top : c * 2 ^ k < 2 ^ 64)
    (low : c < 128) (room : k < 64) where
  decode_more :
      decode_loop ((c + 128) ∷ s) i k acc last
      ≡ decode_loop s (i + 1) (k + 7) (acc + c * 2 ^ k) (c + 128)
  unfolding decode_loop
  decode_more =
      rw (le→not-ltb (c + 128) 128 (omega arith), lt→ltb k 64 room)
        (rw (masked, put_bits k acc c fits top) refl)
    where
      masked : bit_and (c + 128) 127 ≡ c
      masked = bit_and-mask 7 127 (c + 128) refl ∙ omega arith

  decode_last : i ≤ 9 → decode_loop (c ∷ s) i k acc last ≡ ok (acc + c * 2 ^ k, pos (i + 1))
  unfolding decode_loop
  decode_last h =
      rw (lt→ltb c 128 low, le→not-ltb 9 i h, lt→ltb k 64 room)
        (rw (put_bits k acc c fits top) refl)

-- The encoding of `u` with `room` bytes, read back after `i` bytes gave the `k` bits of `acc`.
abbrev pub ReadBack : ℕ → ℕ → List ℕ → ℕ → ℕ → ℕ → ℕ → Type 0
ReadBack room u rest i k acc last =
    (bytes : List ℕ) × (encode_u64 room u ≡ record { bytes = bytes; fitted = true })
    × (1 ≤ length bytes)
    × (length bytes + i ≤ 10)
    × (decode_loop (bytes ++ rest) i k acc last ≡ ok (acc + u * 2 ^ k, pos (length bytes + i)))

encode_last :
    (room u : ℕ) → u < 128 → encode_u64 (suc room) u ≡ record { bytes = u ∷ []; fitted = true }
unfolding encode_u64
encode_last room u low = rw (below, low_byte u low) refl
  where
    below : leb 128 u ≡ false
    below = ground arith

encode_more :
    (room u : ℕ) (bytes : List ℕ)
    → 128 ≤ u
    → encode_u64 room (u / 128) ≡ record { bytes = bytes; fitted = true }
    → encode_u64 (suc room) u ≡ record { bytes = (u % 128 + 128) ∷ bytes; fitted = true }
unfolding encode_u64
encode_more room u bytes high e = rw (above, more_byte u, e) refl
  where
    above : leb 128 u ≡ true
    above = ground arith

-- What the low group of `u` leaves for the groups above it, `p` being the weight of the group.
group_split : (u p : ℕ) → u * p ≡ u % 128 * p + u / 128 * (128 * p)
group_split u p = omega (arith, ap (λ (t : ℕ). t * p) (low_high u))
  where
    low_high : (v : ℕ) → v ≡ v % 128 + 128 * (v / 128)
    low_high v = omega arith

-- A number that still has a group above the `k` bits leaves room for a tenth byte.
groups_left : (i k u : ℕ) → k ≡ 7 * i → i ≤ 9 → 128 ≤ u → u * 2 ^ k < 2 ^ 64 → i ≤ 8
groups_left i k u e h large top = elim (le_or_nine i h) [
  | inl small ↦ small
  | inr nine ↦
      let full : k ≡ 63 = omega arith in
      let wide : u * 2 ^ 63 < 2 ^ 64 = rw full at top in absurd (omega arith)
]
  where
    le_or_nine : (n : ℕ) → n ≤ 9 → (n ≤ 8) ⊎ (n ≡ 9)
    le_or_nine n q = omega arith

next_weight : (k : ℕ) → 2 ^ (k + 7) ≡ 128 * 2 ^ k
next_weight k = simp towards_suc (omega arith)

abbrev read : ℕ → ℕ → Run (ℕ × ℤ)
read value count = ok (value, pos count)

read_whole :
    (acc u i k n : ℕ)
    → u * 2 ^ k ≡ u % 128 * 2 ^ k + u / 128 * (128 * 2 ^ k)
    → read (acc + u % 128 * 2 ^ k + u / 128 * 2 ^ (k + 7)) (n + (i + 1))
      ≡ read (acc + u * 2 ^ k) (suc n + i)
read_whole acc u i k n split =
    let value : acc + u % 128 * 2 ^ k + u / 128 * 2 ^ (k + 7) ≡ acc + u * 2 ^ k =
      rw next_weight (omega arith) in
    let count : n + (i + 1) ≡ suc n + i = omega arith in rw (value, count) refl

encode-ReadBack :
    (room i k u acc last : ℕ) (rest : List ℕ)
    → k ≡ 7 * i
    → i ≤ 9
    → 10 ≤ room + i
    → acc < 2 ^ k
    → acc + u * 2 ^ k < 2 ^ 64
    → ReadBack room u rest i k acc last
encode-ReadBack zero i k u acc last rest e hi fits low top = absurd (omega arith)
encode-ReadBack (suc room) i k u acc last rest e hi fits low top = elim (Bool-cases (ltb u 128)) [
  | inl small ↦
      let below : u < 128 = ltb→lt u 128 small in
      (
        u ∷ [],
        encode_last room u below,
        omega arith,
        omega arith,
        decode_last rest i k acc last u low (omega arith) below (omega arith) hi
            ∙ ap (λ n. ok (acc + u * 2 ^ k, pos n)) (omega arith),
      )
  | inr big ↦
      let large : 128 ≤ u = ground arith in
      let split : u * 2 ^ k ≡ u % 128 * 2 ^ k + u / 128 * (128 * 2 ^ k) = group_split u (2 ^ k) in
      let left : i ≤ 8 = groups_left i k u e hi large (omega arith) in
      let low_group : u % 128 * 2 ^ k ≤ 127 * 2 ^ k = grind arith in
      let next : ReadBack room (u / 128) rest (i + 1) (k + 7) (acc + u % 128 * 2 ^ k)
          (u % 128 + 128) =
        encode-ReadBack room (i + 1) (k + 7) (u / 128) (acc + u % 128 * 2 ^ k) (u % 128 + 128) rest
          (omega arith) (omega arith) (omega arith) (rw next_weight (omega arith))
          (rw next_weight (omega arith)) in
      let (bytes, enc, pos_len, len, dec) = next in
      (
        (u % 128 + 128) ∷ bytes,
        encode_more room u bytes large enc,
        omega arith,
        omega arith,
        decode_more (bytes ++ rest) i k acc last (u % 128) low (omega arith) (omega arith)
              (omega arith)
            ∙ (dec ∙ read_whole acc u i k (length bytes) split),
      )
]

read_start : (u n : ℕ) → read (0 + u * 1) (n + 0) ≡ read u n
read_start u n =
    let value : 0 + u * 1 ≡ u = omega arith in
    let count : n + 0 ≡ n = omega arith in rw (value, count) refl

-- rd_varint_decode_u64 gives back each 64-bit value that rd_varint_encode_u64 wrote into a buffer of
-- ten bytes or more, whatever bytes follow. The encoding always fits such a buffer and takes 1 to
-- 10 bytes, whose number both functions return.
pub decode-encode :
    (room u : ℕ) (rest : List ℕ)
    → u < 2 ^ 64
    → 10 ≤ room
    → (bytes : List ℕ) × (encode_u64 room u ≡ record { bytes = bytes; fitted = true })
      × (encoded_len (encode_u64 room u) ≡ pos (length bytes))
      × (1 ≤ length bytes)
      × (length bytes ≤ 10)
      × (decode_u64 (bytes ++ rest) ≡ ok (u, pos (length bytes)))
unfolding decode_u64 encoded_len
decode-encode room u rest top fits =
    let (bytes, enc, least, most, dec) =
      encode-ReadBack room 0 0 u 0 0 rest refl (omega arith) (omega arith) (omega arith)
        (omega arith) in
    (bytes, enc, rw enc refl, least, omega arith, dec ∙ read_start u (length bytes))
