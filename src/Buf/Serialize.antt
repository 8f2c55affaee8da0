-- ===== src/Buf/Serialize.antt =====
-- rd_bufh_serialize: the copy to memory, and the writes to anything else.
use librd.Common.{
  ℕ, zero, suc, ◌+◌, ◌<◌, ◌^◌, ◌%◌, ◌≡◌, refl, sym, ap, ◌∙◌, arith, inl, inr, List, [], ◌∷◌, ◌++◌,
  length, length-append, take, drop, All, leb, true, ◌≤◌, ◌==◌, Bool-cases, ==_iff,
}
use mathlib.Core.Path.{ap₂}
use mathlib.Core.List.{append_assoc, append-nil}
use librd.Common.Int.{ℤ, pos}
use librd.Common.Run.{ok}
use librd.Buf.{Buf, Bufh, write_at, serialize_mem, serialize, after_write}
use librd.Buf.Memory.{length-take, length-drop, drop-drop, write_at-append}
use librd.Buf.Chain.{contents, total, IsBuf, IsBufh}

-- the copy behind what was copied before
serialize_mem-behind :
    (bufs : List Buf) (front rest dst : List ℕ) (len : ℕ)
    → dst ≡ front ++ rest
    → len ≡ length front
    → All IsBuf bufs
    → total bufs ≤ length rest
    → len + total bufs < 2 ^ 64
    → serialize_mem bufs dst len
      ≡ ok (front ++ contents bufs ++ drop (total bufs) rest, len + total bufs)
unfolding serialize_mem
serialize_mem-behind [] front rest dst len e k h room small =
    let all : len ≡ len + 0 = omega arith in
    ap₂ (λ (d : List ℕ) (n : ℕ). ok (d, n)) (e ∙ ap (λ t. t ++ rest) (sym (append-nil front))) all
serialize_mem-behind (rb ∷ next) front rest dst len e k (fit, h) room small =
    let bytes : List ℕ = take rb.len rb.orig in
    let size : length bytes ≡ rb.len =
      length-take rb.len rb.orig (omega (arith, fit.sized, fit.within)) in
    let sum : length dst ≡ length front + length rest = ap length e ∙ length-append front rest in
    let long : leb rb.len (length rb.orig) ≡ true = ground (arith, fit.sized, fit.within) in
    let fits : leb (len + rb.len) (length dst) ≡ true = ground (arith, sum, k, room) in
    let whole : len + rb.len + total next ≡ len + (rb.len + total next) = omega arith in
    let same : (len + rb.len) % 2 ^ 64 ≡ len + rb.len = omega (arith, small) in
    let wrote : write_at dst len bytes ≡ (front ++ bytes) ++ drop rb.len rest =
      ap₂ (λ (d : List ℕ) (n : ℕ). write_at d n bytes) e k
      ∙ write_at-append front rest bytes
      ∙ ap (λ n. (front ++ bytes) ++ drop n rest) size in
    let again =
      serialize_mem-behind next (front ++ bytes) (drop rb.len rest) (write_at dst len bytes)
        (len + rb.len) wrote (omega (arith, length-append front bytes, size, k)) h
        (omega (arith, length-drop rb.len rest, room)) (omega (arith, small)) in
    rw (long, fits, same, again)
      (ap₂ (λ (d : List ℕ) (n : ℕ). ok (d, n))
        (ap (λ t. t ++ drop (total next) (drop rb.len rest))
            (append_assoc front bytes (contents next))
          ∙ ap (λ t. front ++ (bytes ++ contents next) ++ t) (drop-drop rb.len (total next) rest))
        whole)

-- The optimised copy of a well-formed chain to a memory that has room for it, by a loop of memcpy at
-- moving offsets, stays within its memories, puts what the chain holds at the start of the memory,
-- leaves the bytes behind as they were, and returns the chain's length.
pub serialize_mem-contents :
    (rbh : Bufh) (dst : List ℕ)
    → IsBufh rbh
    → rbh.len ≤ length dst
    → serialize_mem rbh.bufs dst 0 ≡ ok (contents rbh.bufs ++ drop rbh.len dst, rbh.len)
serialize_mem-contents rbh dst is room =
    let len : 0 + total rbh.bufs ≡ rbh.len = omega (arith, is.counted) in
    serialize_mem-behind rbh.bufs [] dst dst 0 refl refl is.each (omega (arith, is.counted, room))
      (omega (arith, is.counted, is.bounded))
    ∙ ap₂ (λ (m n : ℕ). ok (contents rbh.bufs ++ drop m dst, n)) (sym is.counted) len

module _ {ℓ} {W : Type ℓ} (writer : W → List ℕ → W × ℤ) (written : W → List ℕ → W) where
  -- A writer that takes all the bytes it is given: `written` is its state afterwards.
  pub record TakesAll : Type ℓ where
    pub returns : (w : W) (bytes : List ℕ) → writer w bytes ≡ (written w bytes, pos (length bytes))
    pub nothing : (w : W) → written w [] ≡ w
    pub in_turn : (w : W) (xs ys : List ℕ) → written (written w xs) ys ≡ written w (xs ++ ys)

  after_write-pos :
      (w : W) (n sent : ℕ) (rest : W → ℕ → W × ℤ)
      → 0 < n
      → sent + n < 2 ^ 64
      → after_write writer (w, pos n) sent rest ≡ rest w (sent + n)
  after_write-pos w zero sent rest h small = absurd (omega arith)
  after_write-pos w (suc n) sent rest h small =
      let same : (sent + suc n) % 2 ^ 64 ≡ sent + suc n = omega arith in ap (rest w) same

  serialize-written :
      (bufs : List Buf) (w : W) (sent : ℕ)
      → TakesAll
      → All IsBuf bufs
      → sent + total bufs < 2 ^ 64
      → serialize writer bufs w sent ≡ (written w (contents bufs), pos (sent + total bufs))
  unfolding serialize
  serialize-written [] w sent t h small =
      let all : sent ≡ sent + 0 = omega arith in
      ap₂ (λ (v : W) (n : ℕ). (v, pos n)) (sym (t.nothing w)) all
  serialize-written (rb ∷ next) w sent t (fit, h) small = elim (Bool-cases (rb.len == 0)) [
    | inl empty ↦
        let zero_len : rb.len ≡ 0 = (==_iff rb.len 0).0 empty in
        let less : sent + total next ≡ sent + (rb.len + total next) = omega arith in
        rw (empty, zero_len)
          (serialize-written next w sent t h (omega arith)
            ∙ ap (λ n. (written w (contents next), pos n))
                (less ∙ ap (λ n. sent + (n + total next)) zero_len))
    | inr some ↦
        let whole : sent + rb.len + total next ≡ sent + (rb.len + total next) = omega arith in
        let bytes : List ℕ = take rb.len rb.orig in
        let size : length bytes ≡ rb.len =
          length-take rb.len rb.orig (omega (arith, fit.sized, fit.within)) in
        rw some (
          ap (λ r. after_write writer r sent (serialize writer next)) (t.returns w bytes)
          ∙ (after_write-pos (written w bytes) (length bytes) sent (serialize writer next)
                (ground arith) (omega arith)
              ∙ (ap (λ n. serialize writer next (written w bytes) (sent + n)) size
                  ∙ (serialize-written next (written w bytes) (sent + rb.len) t h (omega arith)
                      ∙ ap₂ (λ (v : W) (n : ℕ). (v, pos n)) (t.in_turn w bytes (contents next))
                          whole))))
  ]

  -- With a writer that takes all that it is given, rd_bufh_serialize of a well-formed chain writes what
  -- the chain holds, in order, and returns its length.
  pub serialize-contents :
      (rbh : Bufh) (w : W)
      → IsBufh rbh
      → TakesAll
      → serialize writer rbh.bufs w 0 ≡ (written w (contents rbh.bufs), pos rbh.len)
  serialize-contents rbh w is t =
      let len : 0 + total rbh.bufs ≡ rbh.len = omega (arith, is.counted) in
      serialize-written rbh.bufs w 0 t is.each (omega (arith, is.counted, is.bounded))
      ∙ ap (λ n. (written w (contents rbh.bufs), pos n)) len
