-- ===== src/Buf/Memory.antt =====
-- Writing behind the first bytes of a memory.
use mathlib.Core.List.{append_assoc}
use librd.Common.{
  ℕ, zero, suc, ◌+◌, ◌-◌, ◌≤◌, ◌≡◌, refl, sym, ap, ◌∙◌, arith, List, [], ◌∷◌, ◌++◌, length,
  length-append, take, drop,
}
use librd.Buf.{write_at}

module _ {ℓ} {A : Type ℓ} where
  pub take-length : (xs : List A) → take (length xs) xs ≡ xs
  take-length [] = refl
  take-length (x ∷ xs) = ap (λ t. x ∷ t) (take-length xs)

  pub length-take : (n : ℕ) (xs : List A) → n ≤ length xs → length (take n xs) ≡ n
  length-take zero xs h = refl
  length-take (suc n) [] h = absurd (omega arith)
  length-take (suc n) (x ∷ xs) h = ap suc (length-take n xs (omega arith))

  pub length-drop : (n : ℕ) (xs : List A) → length (drop n xs) ≡ length xs - n
  length-drop zero xs = omega arith
  length-drop (suc n) [] = omega arith
  length-drop (suc n) (x ∷ xs) = omega (arith, length-drop n xs)

  pub take-append : (xs ys : List A) (n : ℕ) → length xs ≡ n → take n (xs ++ ys) ≡ xs
  take-append [] ys zero e = refl
  take-append [] ys (suc n) e = absurd (omega arith)
  take-append (x ∷ xs) ys zero e = absurd (omega arith)
  take-append (x ∷ xs) ys (suc n) e = ap (λ t. x ∷ t) (take-append xs ys n (omega arith))

module _ {ℓ} {A : Type ℓ} where
  drop-nil : (n : ℕ) → drop {A = A} n [] ≡ []
  drop-nil zero = refl
  drop-nil (suc n) = refl

  pub drop-drop : (m n : ℕ) (xs : List A) → drop n (drop m xs) ≡ drop (m + n) xs
  drop-drop zero n xs = let e : n ≡ 0 + n = omega arith in ap (λ k. drop k xs) e
  drop-drop (suc m) n [] = drop-nil n ∙ sym (drop-nil (suc m + n))
  drop-drop (suc m) n (x ∷ xs) =
      let e : suc (m + n) ≡ suc m + n = omega arith in
      drop-drop m n xs ∙ ap (λ k. drop k (x ∷ xs)) e

  pub drop-append : (xs ys : List A) (n : ℕ) → drop (length xs + n) (xs ++ ys) ≡ drop n ys
  drop-append [] ys n = let e : 0 + n ≡ n = omega arith in ap (λ k. drop k ys) e
  drop-append (x ∷ xs) ys n =
      let e : suc (length xs) + n ≡ suc (length xs + n) = omega arith in
      ap (λ k. drop k (x ∷ xs ++ ys)) e ∙ drop-append xs ys n

-- A write behind `front` leaves it.
pub write_at-append :
    (front rest bytes : List ℕ)
    → write_at (front ++ rest) (length front) bytes ≡ (front ++ bytes) ++ drop (length bytes) rest
write_at-append front rest bytes =
    ap (λ t. t ++ bytes ++ drop (length front + length bytes) (front ++ rest))
      (take-append front rest (length front) refl)
    ∙ ap (λ t. front ++ bytes ++ t) (drop-append front rest (length bytes))

-- The bytes before the end of `bytes` are the old ones and those written.
pub take-write_at :
    (mem bytes extra : List ℕ) (of : ℕ)
    → of ≤ length mem
    → take (of + length bytes) (write_at mem of (bytes ++ extra)) ≡ take of mem ++ bytes
take-write_at mem bytes extra of fits =
    let front : length (take of mem ++ bytes) ≡ of + length bytes =
      omega (arith, length-append (take of mem) bytes, length-take of mem fits) in
    let rest = drop (of + length (bytes ++ extra)) mem in
    ap (take (of + length bytes)) (
      ap (λ t. t ++ rest) (sym (append_assoc (take of mem) bytes extra))
      ∙ append_assoc (take of mem ++ bytes) extra rest)
    ∙ take-append (take of mem ++ bytes) (extra ++ rest) (of + length bytes) front

pub length-write_at :
    (mem bytes : List ℕ) (of : ℕ)
    → of + length bytes ≤ length mem
    → length (write_at mem of bytes) ≡ length mem
length-write_at mem bytes of fits = omega (
  arith,
  length-append (take of mem ++ bytes) (drop (of + length bytes) mem),
  length-append (take of mem) bytes,
  length-take of mem (omega arith),
  length-drop (of + length bytes) mem,
)
