-- ===== src/Text/Diff.antt =====
-- rd_strndiffpos and rd_strdiffpos of rdstring.c: where two strings begin to differ.
use librd.Common.{
  ℕ, zero, suc, ◌+◌, ◌≡◌, ◌≢◌, refl, ap, sym, ◌∙◌, arith, true, false, inl, inr, Option, none, some,
  List, [], ◌∷◌, ◌++◌, All, length, get_elem?, take, min, ◌==◌, ==_iff, not-==→ne, Bool-cases,
  if◌then◌else◌, none-ne-some, some_inj,
}
use librd.Common.Int.{ℤ, pos, negsuc}
use librd.Common.Run.{Run, ok, fault, ◌>>=◌}

-- `s[i]`
abbrev pub char_of : List ℕ → ℕ → Run ℕ
char_of s i = elim (get_elem? s i) [ none ↦ fault | some c ↦ ok c ]

-- the loop of rd_strndiffpos from `i`, for the `n` characters that are left
unfoldable pub diff_loop : ℕ → ℕ → List ℕ → List ℕ → Run (Option ℕ)
diff_loop zero i s1 s2 = ok none
diff_loop (suc n) i s1 s2 =
    let rest = diff_loop n (i + 1) s1 s2 in
    char_of s1 i >>= λ a. char_of s2 i >>= λ b. if a == b then rest else ok (some i)

-- what follows the loop
abbrev pub or_shorter : Option ℕ → ℕ → ℕ → ℤ
or_shorter none size1 size2 = if size1 == size2 then negsuc 0 else pos (min size1 size2)
or_shorter (some i) size1 size2 = pos i

-- rd_strndiffpos
unfoldable pub strndiffpos : List ℕ → ℕ → List ℕ → ℕ → Run ℤ
unfolding diff_loop
strndiffpos s1 size1 s2 size2 =
    diff_loop (min size1 size2) 0 s1 s2 >>= λ r. ok (or_shorter r size1 size2)

-- rd_strdiffpos, from the position `at`
unfoldable pub strdiffpos : List ℕ → List ℕ → ℕ → Run ℤ
strdiffpos [] s2 at = fault
strdiffpos (a ∷ s1) [] at = fault
strdiffpos (a ∷ s1) (b ∷ s2) at =
    let rest = strdiffpos s1 s2 (at + 1) in
    if a == b then (if a == 0 then ok (negsuc 0) else rest) else ok (pos at)

abbrev moved : Option ℕ → Option ℕ
moved none = none
moved (some k) = some (suc k)

-- where two texts differ first, one of them may have ended there
abbrev pub first_difference : List ℕ → List ℕ → Option ℕ
first_difference [] [] = none
first_difference [] (b ∷ t) = some 0
first_difference (a ∷ s) [] = some 0
first_difference (a ∷ s) (b ∷ t) =
    let rest = first_difference s t in if a == b then moved rest else some 0

-- a position, or -1
abbrev pub signed : Option ℕ → ℤ
signed none = negsuc 0
signed (some k) = pos k

-- The texts are equal, or agree before the position and not at it.
abbrev pub IsDifference : List ℕ → List ℕ → Option ℕ → Type 0
IsDifference s t none = s ≡ t
IsDifference s t (some k) = (take k s ≡ take k t) × (get_elem? s k ≢ get_elem? t k)

IsDifference-moved :
    (a b : ℕ) (s t : List ℕ) (r : Option ℕ)
    → a ≡ b
    → IsDifference s t r
    → IsDifference (a ∷ s) (b ∷ t) (moved r)
IsDifference-moved a b s t none e h = λ i. e i ∷ h i
IsDifference-moved a b s t (some k) e h = ((λ i. e i ∷ h.0 i), h.1)

first_difference-IsDifference : (s t : List ℕ) → IsDifference s t (first_difference s t)
first_difference-IsDifference [] [] = refl
first_difference-IsDifference [] (b ∷ t) = (refl, none-ne-some)
first_difference-IsDifference (a ∷ s) [] = (refl, λ p. none-ne-some (sym p))
first_difference-IsDifference (a ∷ s) (b ∷ t) = elim (Bool-cases (a == b)) [
  | inl same ↦ rw same (
      IsDifference-moved a b s t (first_difference s t) ((==_iff a b).0 same)
        (first_difference-IsDifference s t))
  | inr apart ↦ rw apart (refl, λ p. not-==→ne a b apart (some_inj p))
]

-- where the characters that both have differ first
abbrev mismatch : List ℕ → List ℕ → Option ℕ
mismatch [] t = none
mismatch (a ∷ s) [] = none
mismatch (a ∷ s) (b ∷ t) = let rest = mismatch s t in if a == b then moved rest else some 0

abbrev shorter : Option ℕ → ℕ → ℕ → Option ℕ
shorter none n m = if n == m then none else some (min n m)
shorter (some k) n m = some k

shorter-moved : (r : Option ℕ) (n m : ℕ) → shorter (moved r) (suc n) (suc m) ≡ moved (shorter r n m)
shorter-moved (some k) n m = refl
shorter-moved none n m = elim (Bool-cases (n == m)) [
  | inl same ↦ let same' : (suc n == suc m) ≡ true = ground (arith, same) in rw (same, same') refl
  | inr apart ↦
      let apart' : (suc n == suc m) ≡ false = ground (arith, apart) in
      rw (apart, apart') (ap some (omega arith))
]

shorter-mismatch :
    (s t : List ℕ) → shorter (mismatch s t) (length s) (length t) ≡ first_difference s t
shorter-mismatch [] [] = refl
shorter-mismatch [] (b ∷ t) =
    let apart : (0 == suc (length t)) ≡ false = ground arith in rw apart (ap some (omega arith))
shorter-mismatch (a ∷ s) [] =
    let apart : (suc (length s) == 0) ≡ false = ground arith in rw apart (ap some (omega arith))
shorter-mismatch (a ∷ s) (b ∷ t) = elim (Bool-cases (a == b)) [
  | inl same ↦
      rw same (shorter-moved (mismatch s t) (length s) (length t) ∙ ap moved (shorter-mismatch s t))
  | inr apart ↦ rw apart refl
]

or_shorter-signed : (r : Option ℕ) (n m : ℕ) → or_shorter r n m ≡ signed (shorter r n m)
or_shorter-signed (some k) n m = refl
or_shorter-signed none n m = elim (Bool-cases (n == m)) [
  | inl same ↦ rw same refl
  | inr apart ↦ rw apart refl
]

abbrev shift : ℕ → Option ℕ → Option ℕ
shift i none = none
shift i (some k) = some (i + k)

shift-moved : (i : ℕ) (r : Option ℕ) → shift (i + 1) r ≡ shift i (moved r)
shift-moved i none = refl
shift-moved i (some k) = ap some (omega arith)

shift_zero : (r : Option ℕ) → shift 0 r ≡ r
shift_zero none = refl
shift_zero (some k) = ap some (omega arith)

char_of-some : (s : List ℕ) (i c : ℕ) → get_elem? s i ≡ some c → char_of s i ≡ ok c
char_of-some s i c h = ap (λ o. elim o [ none ↦ fault | some c ↦ ok c ]) h

diff_loop-step :
    (n i a b : ℕ) (s1 s2 : List ℕ)
    → char_of s1 i ≡ ok a
    → char_of s2 i ≡ ok b
    → diff_loop (suc n) i s1 s2 ≡ (if a == b then diff_loop n (i + 1) s1 s2 else ok (some i))
unfolding diff_loop
diff_loop-step n i a b s1 s2 h k = rw (h, diff_loop, k) refl

diff_loop_zero : (i : ℕ) (s1 s2 : List ℕ) → diff_loop 0 i s1 s2 ≡ ok none
unfolding diff_loop
diff_loop_zero i s1 s2 = refl

-- the loop at `i`, where what is left of the strings begins with `s` and with `t`
diff_loop-mismatch :
    (s t x y s1 s2 : List ℕ) (i : ℕ)
    → ((k : ℕ) → get_elem? s1 (i + k) ≡ get_elem? (s ++ x) k)
    → ((k : ℕ) → get_elem? s2 (i + k) ≡ get_elem? (t ++ y) k)
    → diff_loop (min (length s) (length t)) i s1 s2 ≡ ok (shift i (mismatch s t))
diff_loop-mismatch [] t x y s1 s2 i h k =
    ap (λ n. diff_loop n i s1 s2) (omega arith) ∙ diff_loop_zero i s1 s2
diff_loop-mismatch (a ∷ s) [] x y s1 s2 i h k =
    ap (λ n. diff_loop n i s1 s2) (omega arith) ∙ diff_loop_zero i s1 s2
diff_loop-mismatch (a ∷ s) (b ∷ t) x y s1 s2 i h k =
    let next : (l : ℕ) → i + 1 + l ≡ i + suc l = λ l. omega arith in
    let here : i ≡ i + 0 = omega arith in
    let n = min (length s) (length t) in
    let count : min (length (a ∷ s)) (length (b ∷ t)) ≡ suc n = omega arith in
    ap (λ m. diff_loop m i s1 s2) count
    ∙ diff_loop-step n i a b s1 s2 (char_of-some s1 i a (ap (get_elem? s1) here ∙ h 0))
        (char_of-some s2 i b (ap (get_elem? s2) here ∙ k 0))
    ∙ elim (Bool-cases (a == b)) [
      | inl same ↦ rw same (
          diff_loop-mismatch s t x y s1 s2 (i + 1) (λ l. ap (get_elem? s1) (next l) ∙ h (suc l))
            (λ l. ap (get_elem? s2) (next l) ∙ k (suc l))
          ∙ ap ok (shift-moved i (mismatch s t)))
      | inr apart ↦ rw apart (ap (λ j. ok (some j)) here)
    ]

strndiffpos-first_difference :
    (s t x y : List ℕ)
    → strndiffpos (s ++ x) (length s) (t ++ y) (length t) ≡ ok (signed (first_difference s t))
unfolding strndiffpos
strndiffpos-first_difference s t x y =
    let zero_add : (k : ℕ) → 0 + k ≡ k = λ k. omega arith in
    let loop =
      diff_loop-mismatch s t x y (s ++ x) (t ++ y) 0 (λ k. ap (get_elem? (s ++ x)) (zero_add k))
        (λ k. ap (get_elem? (t ++ y)) (zero_add k)) in
    (λ i.
      (loop ∙ ap ok (shift_zero (mismatch s t))) i >>= λ r. ok (or_shorter r (length s) (length t)))
    ∙ ap ok
        (or_shorter-signed (mismatch s t) (length s) (length t) ∙ ap signed (shorter-mismatch s t))

strdiffpos-first_difference :
    (s t x y : List ℕ) (i : ℕ)
    → All (λ c. c ≢ 0) s
    → All (λ c. c ≢ 0) t
    → strdiffpos (s ++ 0 ∷ x) (t ++ 0 ∷ y) i ≡ ok (signed (shift i (first_difference s t)))
unfolding strdiffpos
strdiffpos-first_difference [] [] x y i h k = refl
strdiffpos-first_difference [] (b ∷ t) x y i h k =
    let ne = k.0 in
    let apart : (0 == b) ≡ false = ground (arith, ne) in
    rw apart (ap (λ j. ok (pos j)) (omega arith))
strdiffpos-first_difference (a ∷ s) [] x y i h k =
    let ne = h.0 in
    let apart : (a == 0) ≡ false = ground (arith, ne) in
    rw apart (ap (λ j. ok (pos j)) (omega arith))
strdiffpos-first_difference (a ∷ s) (b ∷ t) x y i h k =
    let ne = h.0 in
    let goes_on : (a == 0) ≡ false = ground (arith, ne) in
    elim (Bool-cases (a == b)) [
      | inl same ↦
          rw (same, goes_on)
            (strdiffpos-first_difference s t x y (i + 1) h.1 k.1
              ∙ ap (λ r. ok (signed r)) (shift-moved i (first_difference s t)))
      | inr apart ↦ rw apart (ap (λ j. ok (pos j)) (omega arith))
    ]

-- On two texts without a zero, rd_strndiffpos with their lengths and rd_strdiffpos with a zero behind
-- each return the same: -1 if the texts are equal, or else the first position at which they differ,
-- which is the length of the shorter if it begins the other.
pub strndiffpos-strdiffpos :
    (s t x y : List ℕ)
    → All (λ c. c ≢ 0) s
    → All (λ c. c ≢ 0) t
    → (r : Option ℕ) × IsDifference s t r
      × (strndiffpos (s ++ x) (length s) (t ++ y) (length t) ≡ ok (signed r))
      × (strdiffpos (s ++ 0 ∷ x) (t ++ 0 ∷ y) 0 ≡ ok (signed r))
strndiffpos-strdiffpos s t x y h k = (
  first_difference s t,
  first_difference-IsDifference s t,
  strndiffpos-first_difference s t x y,
  strdiffpos-first_difference s t x y 0 h k
      ∙ ap (λ r. ok (signed r)) (shift_zero (first_difference s t)),
)
