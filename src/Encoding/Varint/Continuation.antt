-- ===== src/Encoding/Varint/Continuation.antt =====
-- rd_varint_decode_u64 on a buffer in which every byte asks for another.
use librd.Common.{
  ℕ, zero, suc, ◌+◌, ◌*◌, ◌≤◌, ◌≡◌, refl, arith, List, [], ◌∷◌, length, leb, All, bit_and, bit_or,
  shl64, if◌then◌else◌, le→not-ltb, ◌⊎◌, inl, inr, lt→ltb, ◌∙◌,
}
use librd.Common.Int.{ℤ}
use mathlib.Core.Bool.{Bool}
use librd.Common.Run.{Run, ok, fault}
use librd.Encoding.Varint.{decode_loop, decode_u64, neg}

-- Every byte has the high bit, which says that another one follows.
abbrev pub IsContinued : List ℕ → Type 0
IsContinued s = All (λ b. 128 ≤ b) s

-- Ten such bytes are a truncated varint; an eleventh is shifted by 70 bits.
abbrev pub truncated : ℕ → Run (ℕ × ℤ)
truncated n = if leb n 10 then ok (0, neg (n + 1)) else fault

nine_or_ten : (i : ℕ) → i ≤ 10 → (i ≤ 9) ⊎ (i ≡ 10)
nine_or_ten i h = omega arith

decode_loop-truncated :
    (s : List ℕ) (i k uval last : ℕ)
    → k ≡ 7 * i
    → i ≤ 10
    → (i ≡ 0) ⊎ (128 ≤ last)
    → IsContinued s
    → decode_loop s i k uval last ≡ truncated (length s + i)
unfolding decode_loop
decode_loop-truncated [] zero k uval last e h before c = refl
decode_loop-truncated [] (suc i) k uval last e h before c = ground arith
decode_loop-truncated (b ∷ s) i k uval last e h before (high, c) = elim (nine_or_ten i h) [
  | inl small ↦
      let more : length s + (i + 1) ≡ suc (length s) + i = omega arith in
      rw (le→not-ltb b 128 high, lt→ltb k 64 (omega arith))
        (decode_loop-truncated s (i + 1) (k + 7) (bit_or uval (shl64 (bit_and b 127) k)) b
            (omega arith) (omega arith) (inr high) c
          ∙ rw more refl)
  | inr full ↦
      let wide : leb (suc (length s) + i) 10 ≡ Bool.false = ground arith in
      rw (le→not-ltb b 128 high, le→not-ltb k 64 (omega arith), wide) refl
]

-- On a buffer of `n` bytes that all have the high bit, rd_varint_decode_u64 returns 0 with `*vlenp`
-- at `-(n + 1)` if `n` is at most 10: more bytes are needed. With 11 bytes or more it shifts a
-- 64-bit word by 70, which C leaves undefined.
pub decode-IsContinued : (buf : List ℕ) → IsContinued buf → decode_u64 buf ≡ truncated (length buf)
unfolding decode_u64
decode-IsContinued buf c =
    let all : length buf + 0 ≡ length buf = omega arith in
    decode_loop-truncated buf 0 0 0 0 refl (omega arith) (inl refl) c ∙ rw all refl
