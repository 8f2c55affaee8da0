-- ===== src/Common/Distinct.antt =====
-- Lists of addresses in which none stands twice.
use Prim.Native.Nat.{ℕ}
use mathlib.Core.Path.{◌≡◌, refl, sym, subst}
use mathlib.Core.Logic.{◌≢◌, ◌⊎◌, inl, inr}
use mathlib.Core.List.{List, [], ◌∷◌, ◌++◌}
use librd.Common.Tests.{Bool-cases, ◌==◌, ==_iff, not-==→ne}
use librd.Common.Lists.{All, All-append_left, All-append_right, All-append, All-insert}

-- a member of a list of addresses
abbrev pub In : ℕ → List ℕ → Type 0
In x [] = ⊥
In x (y ∷ ys) = (x ≡ y) ⊎ In x ys

-- No address stands twice in the list.
abbrev pub IsDistinct : List ℕ → Type 0
IsDistinct [] = Unit
IsDistinct (e ∷ q) = All (λ x. x ≢ e) q × IsDistinct q

pub IsDistinct-append :
    (q : List ℕ) (e : ℕ) → IsDistinct q → All (λ x. x ≢ e) q → IsDistinct (q ++ e ∷ [])
IsDistinct-append [] e h k = (tt, tt)
IsDistinct-append (x ∷ q) e h k = (snoc q h.0, IsDistinct-append q e h.1 k.1)
  where
    snoc : (q : List ℕ) → All (λ y. y ≢ x) q → All (λ y. y ≢ x) (q ++ e ∷ [])
    snoc [] a = (λ p. k.0 (sym p), tt)
    snoc (y ∷ q) a = (a.0, snoc q a.1)

pub IsDistinct-last :
    (q : List ℕ) (e : ℕ) → IsDistinct (q ++ e ∷ []) → IsDistinct q × All (λ x. x ≢ e) q
IsDistinct-last [] e h = (tt, tt)
IsDistinct-last (x ∷ q) e h =
    let rest = IsDistinct-last q e h.1 in
    let ends = All-append_right (λ y. y ≢ x) q (e ∷ []) h.0 in
    ((All-append_left (λ y. y ≢ x) q (e ∷ []) h.0, rest.0), (λ p. ends.0 (sym p), rest.1))

pub IsDistinct-middle :
    (front back : List ℕ) (e : ℕ)
    → IsDistinct (front ++ e ∷ back)
    → IsDistinct (front ++ back) × All (λ x. x ≢ e) (front ++ back)
IsDistinct-middle [] back e h = (h.1, h.0)
IsDistinct-middle (x ∷ front) back e h =
    let rest = IsDistinct-middle front back e h.1 in
    let split = All-append_right (λ y. y ≢ x) front (e ∷ back) h.0 in
    let others =
      All-append (λ y. y ≢ x) front back (All-append_left (λ y. y ≢ x) front (e ∷ back) h.0)
        split.1 in
    ((others, rest.0), (λ p. split.0 (sym p), rest.1))

-- A list and the list with one more address in it.
pub IsDistinct-insert :
    (q r : List ℕ) (e : ℕ)
    → IsDistinct (q ++ r)
    → All (λ x. x ≢ e) (q ++ r)
    → IsDistinct (q ++ e ∷ r)
IsDistinct-insert [] r e d a = (a, d)
IsDistinct-insert (x ∷ q) r e d a =
    (All-insert (λ y. y ≢ x) q r e d.0 (λ p. a.0 (sym p)), IsDistinct-insert q r e d.1 a.1)

pub In-insert : (q r : List ℕ) (e x : ℕ) → In x (q ++ r) → In x (q ++ e ∷ r)
In-insert [] r e x m = inr m
In-insert (y ∷ q) r e x m = elim m [ inl p ↦ inl p | inr m' ↦ inr (In-insert q r e x m') ]

pub In-inserted : (q r : List ℕ) (e : ℕ) → In e (q ++ e ∷ r)
In-inserted [] r e = inl refl
In-inserted (y ∷ q) r e = inr (In-inserted q r e)

pub In-remove : (q r : List ℕ) (e x : ℕ) → x ≢ e → In x (q ++ e ∷ r) → In x (q ++ r)
In-remove [] r e x a m = elim m [ inl p ↦ absurd (a p) | inr m' ↦ m' ]
In-remove (y ∷ q) r e x a m = elim m [ inl p ↦ inl p | inr m' ↦ inr (In-remove q r e x a m') ]

pub All-In {κ} : (P : ℕ → Type κ) (q : List ℕ) (x : ℕ) → All P q → In x q → P x
All-In P [] x a m = elim m [ ]
All-In P (y ∷ q) x a m = elim m [ inl p ↦ subst P (sym p) a.0 | inr m' ↦ All-In P q x a.1 m' ]

pub All-of_In {κ} : (P : ℕ → Type κ) (l : List ℕ) → ((x : ℕ) → In x l → P x) → All P l
All-of_In P [] f = tt
All-of_In P (y ∷ l) f = (f y (inl refl), All-of_In P l (λ x m. f x (inr m)))

-- A list of distinct addresses has distinct parts.
pub IsDistinct-append_left : (q r : List ℕ) → IsDistinct (q ++ r) → IsDistinct q
IsDistinct-append_left [] r h = tt
IsDistinct-append_left (x ∷ q) r h =
    (All-append_left (λ y. y ≢ x) q r h.0, IsDistinct-append_left q r h.1)

pub IsDistinct-append_right : (q r : List ℕ) → IsDistinct (q ++ r) → IsDistinct r
IsDistinct-append_right [] r h = h
IsDistinct-append_right (x ∷ q) r h = IsDistinct-append_right q r h.1

pub In-cases : (x : ℕ) (q : List ℕ) → In x q ⊎ All (λ y. y ≢ x) q
In-cases x [] = inr tt
In-cases x (y ∷ q) = elim (Bool-cases (x == y)) [
  | inl eq ↦ inl (inl ((==_iff x y).0 eq))
  | inr ne ↦ elim (In-cases x q) [
    | inl m ↦ inl (inr m)
    | inr a ↦ inr ((λ p. not-==→ne x y ne (sym p)), a)
  ]
]

pub In-append : (x : ℕ) (q r : List ℕ) → In x (q ++ r) → In x q ⊎ In x r
In-append x [] r m = inr m
In-append x (y ∷ q) r m = elim m [
  | inl p ↦ inl (inl p)
  | inr m' ↦ elim (In-append x q r m') [ inl k ↦ inl (inr k) | inr k ↦ inr k ]
]
