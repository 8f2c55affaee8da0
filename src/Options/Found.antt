-- ===== src/Options/Found.antt =====
-- The bit vector that rd_opt_parse keeps of the options given.
use librd.Common.{
  ℕ, ◌*◌, ◌/◌, ◌%◌, ◌^◌, ◌≡◌, refl, ap, sym, ◌∙◌, arith, Bool, true, false, ◌⊎◌, inl, inr,
  Bool-cases, ==_iff, ltb, ◌==◌, if◌then◌else◌, bit_and, get_or,
}
use librd.Common.Digit.{bit_and-pow}
use librd.Common.Int.{pos}
use librd.Common.Run.{ok}
use librd.Bitvec
use librd.Bitvec.{Bitvec, IsBitvec, set_op, bit, bit_at, as_int}
use librd.Bitvec.Op.{tested, tested_eq, test-set_op, op-IsBitvec, init-IsBitvec}
use librd.Options.{is_zero}

unchanged : (rbv : Bitvec) (i : ℕ) → ltb rbv.max_bit i ≡ true → (Bitvec.op rbv i set_op).0 ≡ rbv
unfolding Bitvec.op
unchanged rbv i beyond = rw beyond refl

tested_clear : (rbv : Bitvec) (j : ℕ) → bit_at rbv j ≡ 0 → tested rbv j ≡ pos 0
tested_clear rbv j h =
    let none_left = bit_and-pow (get_or rbv.words (j / 32) 0) (j % 32) in
    let zero_times = ap (λ d. d * 2 ^ (j % 32)) h in
    let word : bit_and (get_or rbv.words (j / 32) 0) (bit j) ≡ 0 =
      none_left ∙ zero_times ∙ omega arith in
    tested_eq rbv j ∙ rw word (either (ltb rbv.max_bit j))
  where
    either : (b : Bool) → (if b then pos 0 else as_int 0) ≡ pos 0
    either true = refl
    either false = refl

-- the vector after rd_bitvec_set of a bit that it may not have
pub set-IsBitvec : (rbv : Bitvec) (i : ℕ) → IsBitvec rbv → IsBitvec (Bitvec.op rbv i set_op).0
set-IsBitvec rbv i v = elim (Bool-cases (ltb rbv.max_bit i)) [
  | inl beyond ↦ rw (unchanged rbv i beyond) v
  | inr named ↦ (op-IsBitvec rbv i v (ground arith)).0
]

-- A bit that is set after rd_bitvec_set was set before, or is the one.
pub set-tested :
    (rbv : Bitvec) (i j : ℕ)
    → IsBitvec rbv
    → is_zero (tested (Bitvec.op rbv i set_op).0 j) ≡ false
    → (i ≡ j) ⊎ (is_zero (tested rbv j) ≡ false)
set-tested rbv i j v h = elim (Bool-cases (ltb rbv.max_bit i)) [
  | inl beyond ↦ inr (kept beyond h)
  | inr named ↦
      let after = (test-set_op rbv i v (ground arith) j).1 in
      elim (Bool-cases (i == j)) [
        | inl e ↦ inl ((==_iff i j).0 e)
        | inr e ↦ inr (ap is_zero (sym (after ∙ not_that e)) ∙ h)
      ]
]
  where
    kept :
        ltb rbv.max_bit i ≡ true
        → is_zero (tested (Bitvec.op rbv i set_op).0 j) ≡ false
        → is_zero (tested rbv j) ≡ false
    kept beyond h = rw (← unchanged rbv i beyond) h

    not_that : (i == j) ≡ false → (if i == j then as_int (bit j) else tested rbv j) ≡ tested rbv j
    not_that e = rw e refl

-- The vector that rd_opt_parse starts with.
pub empty-found :
    (rbv : Bitvec) × (Bitvec.init 512 ≡ ok rbv) × IsBitvec rbv × ((j : ℕ) → tested rbv j ≡ pos 0)
empty-found =
    let (rbv, run, _, wf, clear) = init-IsBitvec 512 (omega arith) in
    (rbv, run, wf, λ j. tested_clear rbv j (clear j))
