-- ===== src/Bitvec/Op.antt =====
-- rd_bitvec_op: what a test says after a bit was set or reset.
use librd.Common.{
  ℕ, ◌+◌, ◌-◌, ◌/◌, ◌%◌, ◌^◌, ◌≤◌, ◌<◌, ◌≡◌, refl, ap, ◌∙◌, sym, arith, inl, inr, Bool, true, false,
  List, get_or, set, length, IsU32, ltb, ◌==◌, if◌then◌else◌, bit_and, bit_or, Bool-cases,
  get_or-set_self, All-get_or, All-set, get_or-set_ne, length-set, le→not-ltb, ==_iff,
}
use native.Mathlib.Nat.{pow-le-pow_right}
use librd.Common.Digit.{
  digit_at, bit_and-pow, digit_at-bit_or, digit_at-bit_and, digit_at-pow, digit_at-complement,
  digit_at-le-one, bit_or-lt_pow, bit_and-le,
}
use librd.Common.Int.{ℤ, pos}
use librd.Common.{leb, replicate, length-replicate, All-replicate, get_or-replicate}
use librd.Common.Digit.{digit_at-zero}
use librd.Common.Run.{ok}
use librd.Bitvec.{
  init, bit_at, Bitvec, IsBitvec, op, set_op, reset_op, test_op, as_int, bit, other_bits,
}

get_or-set :
    (ws : List ℕ) (a b v : ℕ)
    → a < length ws
    → get_or (set ws a v) b 0 ≡ (if a == b then v else get_or ws b 0)
get_or-set ws a b v fits = elim (Bool-cases (a == b)) [
  | inl same ↦
      let e : a ≡ b = (==_iff a b).0 same in
      rw same (ap (λ t. get_or (set ws a v) t 0) (sym e) ∙ get_or-set_self ws a v 0 fits)
  | inr apart ↦ rw apart (get_or-set_ne ws a b v 0 (ground arith))
]

bit_and-set_bit :
    (w k m : ℕ) → bit_and (bit_or w (2 ^ k)) (2 ^ m) ≡ (if k == m then 2 ^ m else bit_and w (2 ^ m))
bit_and-set_bit w k m = elim (Bool-cases (k == m)) [
  | inl same ↦
      let on : digit_at (bit_or w (2 ^ k)) m ≡ 1 =
        ground (arith, digit_at-bit_or w (2 ^ k) m, digit_at-pow k m, digit_at-le-one w m) in
      rw (same, bit_and-pow (bit_or w (2 ^ k)) m, on) (omega arith)
  | inr apart ↦
      let old : digit_at (bit_or w (2 ^ k)) m ≡ digit_at w m =
        ground (arith, digit_at-bit_or w (2 ^ k) m, digit_at-pow k m) in
      rw (apart, bit_and-pow (bit_or w (2 ^ k)) m, old) (sym (bit_and-pow w m))
]

bit_and-reset_bit :
    (w k m : ℕ)
    → 2 ^ k < 2 ^ 32
    → m < 32
    → bit_and (bit_and w (2 ^ 32 - 1 - 2 ^ k)) (2 ^ m) ≡ (if k == m then 0 else bit_and w (2 ^ m))
bit_and-reset_bit w k m fits low = elim (Bool-cases (k == m)) [
  | inl same ↦
      let off : digit_at (bit_and w (2 ^ 32 - 1 - 2 ^ k)) m ≡ 0 = ground (
        arith,
        digit_at-bit_and w (2 ^ 32 - 1 - 2 ^ k) m,
        digit_at-complement 32 (2 ^ k) m fits low,
        digit_at-pow k m,
      ) in
      rw (same, bit_and-pow (bit_and w (2 ^ 32 - 1 - 2 ^ k)) m, off) (omega arith)
  | inr apart ↦
      let old : digit_at (bit_and w (2 ^ 32 - 1 - 2 ^ k)) m ≡ digit_at w m = ground (
        arith,
        digit_at-bit_and w (2 ^ 32 - 1 - 2 ^ k) m,
        digit_at-complement 32 (2 ^ k) m fits low,
        digit_at-pow k m,
        digit_at-le-one w m,
      ) in
      rw (apart, bit_and-pow (bit_and w (2 ^ 32 - 1 - 2 ^ k)) m, old) (sym (bit_and-pow w m))
]

pow_word : (k : ℕ) → k < 32 → 2 ^ k < 2 ^ 32
pow_word k low =
    omega (arith, pow-le-pow_right {n = 2} (omega arith) {i = k} {j = 31} (omega arith))

-- the place in its word does not matter where the words differ
same_bit : (i j : ℕ) → (i == j) ≡ (if i / 32 == j / 32 then i % 32 == j % 32 else false)
same_bit i j = ground arith

-- A write to the word of bit `i`, seen at bit `j`.
word_after :
    (ws : List ℕ) (i j new seen : ℕ)
    → i / 32 < length ws
    → bit_and new (2 ^ (j % 32))
      ≡ (if i % 32 == j % 32 then seen else bit_and (get_or ws (i / 32) 0) (2 ^ (j % 32)))
    → bit_and (get_or (set ws (i / 32) new) (j / 32) 0) (2 ^ (j % 32))
      ≡ (if i == j then seen else bit_and (get_or ws (j / 32) 0) (2 ^ (j % 32)))
word_after ws i j new seen fits e = elim (Bool-cases (i / 32 == j / 32)) [
  | inl same ↦
      let bucket : i / 32 ≡ j / 32 = (==_iff (i / 32) (j / 32)).0 same in
      let old : bit_and (get_or ws (i / 32) 0) (2 ^ (j % 32))
          ≡ bit_and (get_or ws (j / 32) 0) (2 ^ (j % 32)) =
        ap (λ b. bit_and (get_or ws b 0) (2 ^ (j % 32))) bucket in
      rw (get_or-set ws (i / 32) (j / 32) new fits, same_bit i j, same) (rw (← old) e)
  | inr apart ↦ rw (get_or-set ws (i / 32) (j / 32) new fits, same_bit i j, apart) refl
]

-- what a test of bit `j` returns
abbrev pub tested : Bitvec → ℕ → ℤ
tested rbv j = (op rbv j test_op).1

snd-if : (b : Bool) (x y : Bitvec × ℤ) → (if b then x else y).1 ≡ (if b then x.1 else y.1)
snd-if true x y = refl
snd-if false x y = refl

pub tested_eq :
    (r : Bitvec) (j : ℕ)
    → tested r j
      ≡ (if ltb r.max_bit j then pos 0 else as_int (bit_and (get_or r.words (j / 32) 0) (bit j)))
unfolding op
tested_eq r j =
    snd-if (ltb r.max_bit j) (r, pos 0) (r, as_int (bit_and (get_or r.words (j / 32) 0) (bit j)))

-- A vector that rd_bitvec_init made is well formed, and no bit of it is set.
pub init-IsBitvec :
    (max_val : ℕ)
    → max_val ≤ 4096
    → (rbv : Bitvec) × (init max_val ≡ ok rbv)
      × (rbv.max_bit ≡ max_val)
      × IsBitvec rbv
      × ((i : ℕ) → bit_at rbv i ≡ 0)
unfolding init
init-IsBitvec max_val small =
    let allowed : leb max_val 4096 ≡ true = ground arith in
    (
      record { max_bit = max_val; words = replicate (1 + max_val / 32) 0 },
      rw allowed refl,
      refl,
      record {
        covered = omega (arith, length-replicate {A = ℕ} (1 + max_val / 32) 0);
        bounded = omega (arith, length-replicate {A = ℕ} (1 + max_val / 32) 0);
        in_words = All-replicate IsU32 (1 + max_val / 32) 0 (omega arith);
      },
      λ i. rw (get_or-replicate {A = ℕ} (1 + max_val / 32) (i / 32) 0) (digit_at-zero (i % 32)),
    )

module _ (rbv : Bitvec) (i : ℕ) (v : IsBitvec rbv) (named : i ≤ rbv.max_bit) where
  bucket_fits : i / 32 < length rbv.words
  bucket_fits = let covered : rbv.max_bit / 32 < length rbv.words = v.covered in omega arith

  set_words :
      (op rbv i set_op).0
      ≡ record rbv { words = set rbv.words (i / 32) (bit_or (get_or rbv.words (i / 32) 0) (bit i)) }
  unfolding op
  set_words = rw (le→not-ltb rbv.max_bit i named) refl

  reset_words : (op rbv i reset_op).0 ≡ record rbv {
    words = set rbv.words (i / 32) (bit_and (get_or rbv.words (i / 32) 0) (other_bits i));
  }
  unfolding op
  reset_words = rw (le→not-ltb rbv.max_bit i named) refl

  word_IsU32 : IsU32 (get_or rbv.words (i / 32) 0)
  word_IsU32 = All-get_or IsU32 rbv.words (i / 32) 0 v.in_words (omega arith)

  -- Setting or resetting a bit keeps the vector well formed.
  pub op-IsBitvec : IsBitvec (op rbv i set_op).0 × IsBitvec (op rbv i reset_op).0
  op-IsBitvec =
      rw (set_words, reset_words)
        (
          record {
            covered =
                rw (length-set rbv.words (i / 32) (bit_or (get_or rbv.words (i / 32) 0) (bit i)))
                  v.covered;
            bounded =
                rw (length-set rbv.words (i / 32) (bit_or (get_or rbv.words (i / 32) 0) (bit i)))
                  v.bounded;
            in_words = All-set IsU32 rbv.words (i / 32) _ v.in_words (
                bit_or-lt_pow 32 (get_or rbv.words (i / 32) 0) (bit i) word_IsU32
                  (pow_word (i % 32) (omega arith)));
          },
          record {
            covered =
                rw
                  (length-set rbv.words (i / 32)
                    (bit_and (get_or rbv.words (i / 32) 0) (other_bits i)))
                  v.covered;
            bounded =
                rw
                  (length-set rbv.words (i / 32)
                    (bit_and (get_or rbv.words (i / 32) 0) (other_bits i)))
                  v.bounded;
            in_words = All-set IsU32 rbv.words (i / 32) _ v.in_words (
                omega (arith, word_IsU32, bit_and-le (get_or rbv.words (i / 32) 0) (other_bits i)));
          },
        )

  tested_word :
      (words : List ℕ) (j seen : ℕ)
      → bit_and (get_or words (j / 32) 0) (bit j)
        ≡ (if i == j then seen else bit_and (get_or rbv.words (j / 32) 0) (bit j))
      → tested (record rbv { words = words }) j ≡ (if i == j then as_int seen else tested rbv j)
  tested_word words j seen e =
      rw (tested_eq (record rbv { words = words }) j, tested_eq rbv j)
        (elim (Bool-cases (ltb rbv.max_bit j)) [
          | inl beyond ↦ let apart : (i == j) ≡ false = ground arith in rw (beyond, apart) refl
          | inr within ↦ elim (Bool-cases (i == j)) [
            | inl same ↦ rw (within, e, same) refl
            | inr apart ↦ rw (within, e, apart) refl
          ]
        ])

  -- After bit `i` of a vector was set, which returns 0, a test of bit `i` returns its place in the
  -- word, and a test of any other bit what it returned before.
  pub test-set_op :
      (j : ℕ)
      → ((op rbv i set_op).1 ≡ pos 0)
        × (tested (op rbv i set_op).0 j ≡ (if i == j then as_int (bit j) else tested rbv j))
  test-set_op j = (
    (unfold op in rw (le→not-ltb rbv.max_bit i named) refl),
    rw set_words (
        tested_word _ j (bit j)
          (word_after rbv.words i j _ (bit j) bucket_fits (bit_and-set_bit _ (i % 32) (j % 32)))),
  )

  -- After bit `i` of a vector was reset, which returns 0, a test of bit `i` returns 0, and a test of
  -- any other bit what it returned before.
  pub test-reset_op :
      (j : ℕ)
      → ((op rbv i reset_op).1 ≡ pos 0)
        × (tested (op rbv i reset_op).0 j ≡ (if i == j then pos 0 else tested rbv j))
  test-reset_op j = (
    (unfold op in rw (le→not-ltb rbv.max_bit i named) refl),
    rw reset_words (
        tested_word _ j 0 (
          word_after rbv.words i j _ 0 bucket_fits (
            bit_and-reset_bit _ (i % 32) (j % 32) (pow_word (i % 32) (omega arith))
              (omega arith)))),
  )
