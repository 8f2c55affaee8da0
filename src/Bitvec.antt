-- ===== src/Bitvec.antt =====
-- rdbits.c and rdbits.h: the bit vector, as the list of its 32-bit words.
pub mod Search
pub mod Op
mod Examples
use librd.Common.{
  ℕ, zero, suc, ◌+◌, ◌-◌, ◌*◌, ◌/◌, ◌%◌, ◌^◌, ◌≤◌, ◌<◌, ◌≡◌, ◌≢◌, Bool, true, false, not, Option,
  none, some, List, [], ◌∷◌, replicate, get_or, set, length, All, IsU32, ltb, leb, ◌==◌,
  if◌then◌else◌, bit_and, bit_or,
}
use librd.Common.Digit.{digit_at}
use librd.Common.Int.{ℤ, pos, negsuc}
use librd.Common.Run.{Run, ok, fault}

-- `rd_bitvec_t`; `rbv_buckets` is the length of `words`, and `rbv_size` is never written
pub record Bitvec : Type 0 where
  pub max_bit : ℕ
  pub words : List ℕ

-- `rd_bitvec_op_t`
pub data BitOp : Type 0 where
  set_op reset_op test_op ffs_op fls_op : BitOp

-- rd_bitvec_init, at its only type; `fault` is the assertion
unfoldable pub init : ℕ → Run Bitvec
init max_val =
    if leb max_val 4096
    then ok (record { max_bit = max_val; words = replicate (1 + max_val / 32) 0 })
    else fault

-- `1 << (i % 32)` and its complement, as 32-bit words
abbrev pub bit : ℕ → ℕ
bit i = 2 ^ (i % 32)

abbrev pub other_bits : ℕ → ℕ
other_bits i = 2 ^ 32 - 1 - bit i

-- a word as the `int` that is returned
abbrev pub as_int : ℕ → ℤ
as_int v = if ltb v (2 ^ 31) then pos v else negsuc (2 ^ 32 - 1 - v)

abbrev word : Bitvec → ℕ → ℕ
word rbv i = get_or rbv.words (i / 32) 0

-- rd_bitvec_op
unfoldable pub op : Bitvec → ℕ → BitOp → Bitvec × ℤ
op rbv i test_op =
    if ltb rbv.max_bit i then (rbv, pos 0) else (rbv, as_int (bit_and (word rbv i) (bit i)))
op rbv i set_op =
    if ltb rbv.max_bit i
    then (rbv, negsuc 0)
    else (record rbv { words = set rbv.words (i / 32) (bit_or (word rbv i) (bit i)) }, pos 0)
op rbv i reset_op = if ltb rbv.max_bit i then (rbv, negsuc 0) else (
  record rbv { words = set rbv.words (i / 32) (bit_and (word rbv i) (other_bits i)) },
  pos 0,
)
op rbv i _ = (rbv, negsuc 0)

-- What the vector promises: a word for each bit that may be set, each of 32 bits, and no more than
-- rd_bitvec_init allocates for its largest vector.
pub record IsBitvec (rbv : Bitvec) : Type 0 where
  pub covered : rbv.max_bit / 32 < length rbv.words
  pub bounded : length rbv.words ≤ 129
  pub in_words : All IsU32 rbv.words

-- bit `i`, whether rd_bitvec_op may name it or not
abbrev pub bit_at : Bitvec → ℕ → ℕ
bit_at rbv i = digit_at (get_or rbv.words (i / 32) 0) (i % 32)

-- The compiler's builtins, on words that are not 0: `ffs` gives the place of the lowest digit, from 1,
-- and `__builtin_clz` the number of zeros above the highest.
pub record Builtins : Type 0 where
  pub ffs : ℕ → ℕ
  pub clz : ℕ → ℕ
  pub ffs_pos : (x : ℕ) → x ≢ 0 → 0 < ffs x
  pub ffs_at : (x : ℕ) → x ≢ 0 → digit_at x (ffs x - 1) ≡ 1
  pub ffs_least : (x k : ℕ) → x ≢ 0 → k + 1 < ffs x → digit_at x k ≡ 0
  pub clz_top : (x : ℕ) → x < 2 ^ 32 → 2 ^ 31 ≤ x → clz x ≡ 0
  pub clz_rest :
      (x : ℕ) → x ≢ 0 → x < 2 ^ 31 → (0 < clz x) × (clz x < 32) × (digit_at x (31 - clz x) ≡ 1)

module _ (b : Builtins) where
  -- the first loop of rd_bitvec_fxs: `bit`, and `bucket` counted from the words given
  unfoldable pub ffs_scan : List ℕ → ℕ → ℕ × ℕ
  ffs_scan [] bucket = (0, bucket)
  ffs_scan (w ∷ ws) bucket =
      let next = ffs_scan ws (bucket + 1) in
      if w == 0 then next else if b.ffs w == 0 then next else (b.ffs w, bucket)

  -- the second loop, from the word `bucket - 1` down; the flag says whether it was left by `break`,
  -- and else the index is -1
  unfoldable pub fls_scan : List ℕ → ℕ → Bool × ℕ × ℕ
  fls_scan ws zero = (false, 0, 0)
  fls_scan ws (suc bucket) =
      let w = get_or ws bucket 0 in
      let next = fls_scan ws bucket in
      if w == 0 then next else if b.clz w == 0 then next else (true, 32 - b.clz w, bucket)

  -- rd_bitvec_fxs; `fault` is the assertion
  unfoldable pub fxs : Bitvec → BitOp → Run ℕ
  unfolding ffs_scan fls_scan
  fxs rbv ffs_op = let (bit, bucket) = ffs_scan rbv.words 0 in ok ((bit + bucket * 32) % 2 ^ 64)
  fxs rbv fls_op =
      let (found, bit, bucket) = fls_scan rbv.words (length rbv.words) in
      ok (if found then (bit + bucket * 32) % 2 ^ 64 else 2 ^ 64 - 32)
  fxs rbv _ = fault
