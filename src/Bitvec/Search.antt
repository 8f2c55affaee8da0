-- ===== src/Bitvec/Search.antt =====
-- rd_bitvec_ffs and rd_bitvec_fls: which bit they name.
use librd.Common.{
  ℕ, zero, suc, ◌+◌, ◌-◌, ◌*◌, ◌/◌, ◌%◌, ◌^◌, ◌≤◌, ◌<◌, ◌≡◌, ◌≢◌, refl, ap, arith, inl, inr, ◌⊎◌,
  Bool, true, false, List, [], ◌∷◌, get_or, length, All, IsU32, ◌==◌, if◌then◌else◌, Bool-cases,
  ==_iff, All-get_or,
}
use librd.Common.Digit.{digit_at, digit_at-zero, digit_at-high}
use librd.Common.Run.{ok}
use librd.Bitvec.{Bitvec, IsBitvec, Builtins, ffs_op, fls_op, fxs, ffs_scan, fls_scan}

-- bit `i` of a list of words
abbrev digit_of : List ℕ → ℕ → ℕ
digit_of ws i = digit_at (get_or ws (i / 32) 0) (i % 32)

-- `i` is the lowest bit that is set.
abbrev pub IsLowest : List ℕ → ℕ → Type 0
IsLowest ws i = (i / 32 < length ws) × (digit_of ws i ≡ 1) × ((j : ℕ) → j < i → digit_of ws j ≡ 0)

if_either {ℓ} : {A : Type ℓ} {x y : A} (c : Bool) → x ≡ y → (if c then x else x) ≡ y
if_either true e = e
if_either false e = e

module _ (b : Builtins) where
  -- What the scan comes to, `bit` and `bucket` being its results.
  abbrev Scans : List ℕ → ℕ → ℕ × ℕ → Type 0
  Scans ws start r =
      (All (λ w. w ≡ 0) ws × (r.0 + r.1 * 32 ≡ (start + length ws) * 32))
      ⊎ ((i : ℕ) × IsLowest ws i × (r.0 + r.1 * 32 ≡ i + 1 + start * 32))

  skip : (ws : List ℕ) (start : ℕ) (r : ℕ × ℕ) → Scans ws (start + 1) r → Scans (0 ∷ ws) start r
  skip ws start r (inl (z, e)) = inl ((refl, z), omega arith)
  skip ws start r (inr (i, (fits, on, off), e)) = inr (
    i + 32,
    (
      omega arith,
      rw (bucket i, place i) on,
      λ j low. elim (below j) [
        | inl first ↦ rw first (digit_at-zero (j % 32))
        | inr later ↦
            let back : digit_of (0 ∷ ws) (j - 32 + 32) ≡ 0 =
              rw (bucket (j - 32), place (j - 32)) (off (j - 32) (omega arith)) in
            let whole : j - 32 + 32 ≡ j = omega arith in rw whole at back
      ],
    ),
    omega arith,
  )
    where
      bucket : (k : ℕ) → (k + 32) / 32 ≡ suc (k / 32)
      bucket k = omega arith

      place : (k : ℕ) → (k + 32) % 32 ≡ k % 32
      place k = omega arith

      below : (k : ℕ) → (k / 32 ≡ 0) ⊎ (32 ≤ k)
      below k = omega arith

  -- The lowest digit of a word that is not 0.
  found :
      (w : ℕ) (ws : List ℕ) (start : ℕ) → IsU32 w → w ≢ 0 → Scans (w ∷ ws) start (b.ffs w, start)
  found w ws start fits some = inr (
    b.ffs w - 1,
    (
      rw first (omega arith),
      rw (first, same) (b.ffs_at w some),
      λ j low.
          let head : j / 32 ≡ 0 = omega (arith, inside) in
          let at : j % 32 ≡ j = omega (arith, inside) in
          rw (head, at) (b.ffs_least w j some (omega arith)),
    ),
    omega (arith, b.ffs_pos w some),
  )
    where
      inside : b.ffs w - 1 < 32
      inside = elim (at_most (b.ffs w - 1)) [
        | inl low ↦ low
        | inr high ↦
            absurd (omega (arith, b.ffs_at w some, digit_at-high 32 w (b.ffs w - 1) fits high))
      ]
        where
          at_most : (k : ℕ) → (k < 32) ⊎ (32 ≤ k)
          at_most k = omega arith

      first : (b.ffs w - 1) / 32 ≡ 0
      first = omega (arith, inside)

      same : (b.ffs w - 1) % 32 ≡ b.ffs w - 1
      same = omega (arith, inside)

  ffs_scan-Scans : (ws : List ℕ) (start : ℕ) → All IsU32 ws → Scans ws start (ffs_scan b ws start)
  unfolding ffs_scan
  ffs_scan-Scans [] start h = inl (tt, omega arith)
  ffs_scan-Scans (w ∷ ws) start (fits, h) = elim (Bool-cases (w == 0)) [
    | inl none ↦
        let zero_word : w ≡ 0 = (==_iff w 0).0 none in
        rw (none, zero_word)
          (skip ws start (ffs_scan b ws (start + 1)) (ffs_scan-Scans ws (start + 1) h))
    | inr some ↦
        let filled : w ≢ 0 = ground arith in
        let taken : (b.ffs w == 0) ≡ false = ground (arith, b.ffs_pos w filled) in
        rw (some, taken) (found w ws start fits filled)
  ]

  -- rd_bitvec_ffs returns one more than the number of the lowest bit that is set, or, if none is, the
  -- number of bits of all the words.
  pub fxs-ffs_op :
      (rbv : Bitvec)
      → IsBitvec rbv
      → (All (λ w. w ≡ 0) rbv.words × (fxs b rbv ffs_op ≡ ok (length rbv.words * 32)))
        ⊎ ((i : ℕ) × IsLowest rbv.words i × (fxs b rbv ffs_op ≡ ok (i + 1)))
  unfolding fxs
  fxs-ffs_op rbv v = finish (ffs_scan b rbv.words 0) (ffs_scan-Scans rbv.words 0 v.in_words)
    where
      finish :
          (r : ℕ × ℕ)
          → Scans rbv.words 0 r
          → (All (λ w. w ≡ 0) rbv.words
              × (ok ((r.0 + r.1 * 32) % 2 ^ 64) ≡ ok (length rbv.words * 32)))
            ⊎ ((i : ℕ) × IsLowest rbv.words i × (ok ((r.0 + r.1 * 32) % 2 ^ 64) ≡ ok (i + 1)))
      finish r (inl (z, e)) =
          let whole : (r.0 + r.1 * 32) % 2 ^ 64 ≡ length rbv.words * 32 =
            omega (arith, v.bounded) in
          inl (z, ap ok whole)
      finish r (inr (i, low, e)) =
          let whole : (r.0 + r.1 * 32) % 2 ^ 64 ≡ i + 1 = omega (arith, v.bounded, low.0) in
          inr (i, low, ap ok whole)

  -- a word with its highest bit set, or none
  abbrev pub TopOrNone : ℕ → Type 0
  TopOrNone w = (w ≡ 0) ⊎ (2 ^ 31 ≤ w)

  fls_scan-TopOrNone :
      (ws : List ℕ) (n : ℕ) → All IsU32 ws → All TopOrNone ws → fls_scan b ws n ≡ (false, 0, 0)
  unfolding fls_scan
  fls_scan-TopOrNone ws zero h t = refl
  fls_scan-TopOrNone ws (suc n) h t =
      passed (All-get_or TopOrNone ws n 0 t (inl refl)) (fls_scan-TopOrNone ws n h t)
    where
      passed :
          TopOrNone (get_or ws n 0)
          → fls_scan b ws n ≡ (false, 0, 0)
          → fls_scan b ws (suc n) ≡ (false, 0, 0)
      passed (inl none) e = let test : (get_or ws n 0 == 0) ≡ true = ground arith in rw test e
      passed (inr top) e =
          let clear : (b.clz (get_or ws n 0) == 0) ≡ true =
            ground
              (arith, b.clz_top (get_or ws n 0) (All-get_or IsU32 ws n 0 h (omega arith)) top) in
          rw clear (if_either (get_or ws n 0 == 0) e)

  -- rd_bitvec_fls passes over every word whose highest bit is set: where each word is 0 or has that
  -- bit, it returns `2 ^ 64 - 32`, as for a vector with no bit set.
  pub fxs-fls_op :
      (rbv : Bitvec) → IsBitvec rbv → All TopOrNone rbv.words → fxs b rbv fls_op ≡ ok (2 ^ 64 - 32)
  unfolding fxs
  fxs-fls_op rbv v t = rw (fls_scan-TopOrNone rbv.words (length rbv.words) v.in_words t) refl
