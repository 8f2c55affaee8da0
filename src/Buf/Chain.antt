-- ===== src/Buf/Chain.antt =====
-- What a chain holds, and when it is well formed.
use mathlib.Core.List.{append_assoc}
use librd.Common.{
  ℕ, ◌+◌, ◌≤◌, ◌<◌, ◌^◌, ◌≡◌, refl, sym, ap, ◌∙◌, arith, inl, inr, ◌⊎◌, none, some, List, [], ◌∷◌,
  ◌++◌, length, take, get_elem?, All, length-append,
}
use librd.Buf.{Buf, Bufh, modify, insert_after, last_place}

-- the bytes of the buffers, in order
abbrev pub contents : List Buf → List ℕ
contents [] = []
contents (b ∷ bs) = take b.len b.orig ++ contents bs

abbrev pub total : List Buf → ℕ
total [] = 0
total (b ∷ bs) = b.len + total bs

-- A buffer's memory has its allocated size, and its data fits.
pub record IsBuf (b : Buf) : Type 0 where
  pub sized : length b.orig ≡ b.olen
  pub within : b.len ≤ b.olen
  pub small : b.olen < 2 ^ 32

-- The chain's length is the sum of its buffers' lengths.
pub record IsBufh (rbh : Bufh) : Type 0 where
  pub each : All IsBuf rbh.bufs
  pub counted : rbh.len ≡ total rbh.bufs
  pub bounded : rbh.len < 2 ^ 32

pub contents-append : (xs ys : List Buf) → contents (xs ++ ys) ≡ contents xs ++ contents ys
contents-append [] ys = refl
contents-append (x ∷ xs) ys =
    ap (λ t. take x.len x.orig ++ t) (contents-append xs ys)
    ∙ sym (append_assoc (take x.len x.orig) (contents xs) (contents ys))

pub total-append : (xs ys : List Buf) → total (xs ++ ys) ≡ total xs + total ys
total-append [] ys = omega arith
total-append (x ∷ xs) ys = omega (arith, total-append xs ys)

module _ {ℓ} {A : Type ℓ} where
  -- A list is empty, or has a last element.
  pub split_last : (xs : List A) → (xs ≡ []) ⊎ ((front : List A) × (x : A) × (xs ≡ front ++ x ∷ []))
  split_last [] = inl refl
  split_last (y ∷ xs) = elim (split_last xs) [
    | inl e ↦ inr ([], y, ap (λ t. y ∷ t) e)
    | inr (front, x, e) ↦ inr (y ∷ front, x, ap (λ t. y ∷ t) e)
  ]

  module _ (x : A) where
    pub last_place-append : (front : List A) → last_place (front ++ x ∷ []) ≡ some (length front)
    last_place-append [] = refl
    last_place-append (y ∷ front) = ap some (length-append front (x ∷ []) ∙ omega arith)

    pub get_elem?-last : (front : List A) → get_elem? (front ++ x ∷ []) (length front) ≡ some x
    get_elem?-last [] = refl
    get_elem?-last (y ∷ front) = get_elem?-last front

    pub modify-last :
        (front : List A) (f : A → A) → modify (front ++ x ∷ []) (length front) f ≡ front ++ f x ∷ []
    modify-last [] f = refl
    modify-last (y ∷ front) f = ap (λ t. y ∷ t) (modify-last front f)

    pub insert_after-last :
        (front : List A) (y : A)
        → insert_after (front ++ x ∷ []) (length front) y ≡ (front ++ x ∷ []) ++ y ∷ []
    insert_after-last [] y = refl
    insert_after-last (z ∷ front) y = ap (λ t. z ∷ t) (insert_after-last front y)

  insert_after-end :
      (x : A) (xs : List A) (y : A) → insert_after (x ∷ xs) (length xs) y ≡ x ∷ (xs ++ y ∷ [])
  insert_after-end x [] y = refl
  insert_after-end x (z ∷ xs) y = ap (λ t. x ∷ t) (insert_after-end z xs y)

  -- Inserting behind the last element, or at the head of an empty list.
  pub insert_tail :
      (xs : List A) (y : A)
      → (elim (last_place xs) as (λ o. List A) [ none ↦ y ∷ xs | some i ↦ insert_after xs i y ])
        ≡ xs ++ y ∷ []
  insert_tail [] y = refl
  insert_tail (x ∷ xs) y = insert_after-end x xs y
