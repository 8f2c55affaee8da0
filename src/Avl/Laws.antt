-- ===== src/Avl/Laws.antt =====
-- The laws of the sorted list that specifies rdavl.c: insertion and removal keep it sorted, and
-- decide what is found afterwards.
use Prim.Native.Nat.Ordering.{lt, eq}
use librd.Common.{◌≡◌, refl, sym, ◌∙◌, arith, inl, inr, List, [], ◌∷◌, Ordering, Option, none, some}
use librd.Avl.Insert.{Ordering-cases}
use librd.Avl.Sorted.{IsOrder, insert, remove, find, Above, IsSorted}

-- `new` where the comparator said equal, and else `old`.
abbrev pub when_equal {ℓ} : {A : Type ℓ} → Ordering → Option A → Option A → Option A
when_equal how new old = elim how [ eq ↦ new | _ ↦ old ]

module _ {ℓ} {A : Type ℓ} {cmp : A → A → Ordering} (o : IsOrder cmp) where
  cmp_refl : (a : A) → cmp a a ≡ eq
  cmp_refl a = elim (Ordering-cases (cmp a a)) [
    | inl c ↦ absurd (cc (o.gt_of_lt a a c))
    | inr (inl c) ↦ c
    | inr (inr c) ↦ absurd (cc (o.lt_of_gt a a c))
  ]

  eq_sym : (a b : A) → cmp a b ≡ eq → cmp b a ≡ eq
  eq_sym a b e = sym (o.eq_left a b a e) ∙ cmp_refl a

  -- Equal elements compare alike on the right.
  eq_right : (a b c : A) → cmp a b ≡ eq → cmp c a ≡ cmp c b
  eq_right a b c e = elim (Ordering-cases (cmp c b)) [
    | inl q ↦ o.lt_of_gt a c (o.eq_left a b c e ∙ o.gt_of_lt c b q) ∙ sym q
    | inr (inl q) ↦ eq_sym a c (o.eq_left a b c e ∙ eq_sym c b q) ∙ sym q
    | inr (inr q) ↦ o.gt_of_lt a c (o.eq_left a b c e ∙ o.lt_of_gt c b q) ∙ sym q
  ]

  Above-trans : (a b : A) (xs : List A) → cmp a b ≡ lt → Above cmp b xs → Above cmp a xs
  Above-trans a b [] h s = tt
  Above-trans a b (x ∷ xs) h s = (o.lt_trans a b x h s.0, Above-trans a b xs h s.1)

  Above-eq : (a b : A) (xs : List A) → cmp a b ≡ eq → Above cmp b xs → Above cmp a xs
  Above-eq a b [] h s = tt
  Above-eq a b (x ∷ xs) h s = (o.eq_left a b x h ∙ s.0, Above-eq a b xs h s.1)

  Above-insert :
      (a e : A) (xs : List A) → cmp a e ≡ lt → Above cmp a xs → Above cmp a (insert cmp e xs)
  unfolding insert
  Above-insert a e [] h s = (h, tt)
  Above-insert a e (x ∷ xs) h s = elim (Ordering-cases (cmp e x)) [
    | inl c ↦ rw (c, insert) (h, s)
    | inr (inl c) ↦ rw (c, insert) (h, s.1)
    | inr (inr c) ↦ rw (c, insert) (s.0, Above-insert a e xs h s.1)
  ]

  Above-remove : (a e : A) (xs : List A) → Above cmp a xs → Above cmp a (remove cmp e xs)
  unfolding remove
  Above-remove a e [] s = tt
  Above-remove a e (x ∷ xs) s = elim (Ordering-cases (cmp e x)) [
    | inl c ↦ rw (c, remove) s
    | inr (inl c) ↦ rw (c, remove) s.1
    | inr (inr c) ↦ rw (c, remove) (s.0, Above-remove a e xs s.1)
  ]

  pub insert-IsSorted : (e : A) (xs : List A) → IsSorted cmp xs → IsSorted cmp (insert cmp e xs)
  unfolding insert
  insert-IsSorted e [] s = (tt, tt)
  insert-IsSorted e (x ∷ xs) s = elim (Ordering-cases (cmp e x)) [
    | inl c ↦ rw (c, insert) ((c, Above-trans e x xs c s.0), s)
    | inr (inl c) ↦ rw (c, insert) (Above-eq e x xs c s.0, s.1)
    | inr (inr c) ↦
        rw (c, insert) (Above-insert x e xs (o.lt_of_gt e x c) s.0, insert-IsSorted e xs s.1)
  ]

  pub remove-IsSorted : (e : A) (xs : List A) → IsSorted cmp xs → IsSorted cmp (remove cmp e xs)
  unfolding remove
  remove-IsSorted e [] s = tt
  remove-IsSorted e (x ∷ xs) s = elim (Ordering-cases (cmp e x)) [
    | inl c ↦ rw (c, remove) s
    | inr (inl c) ↦ rw (c, remove) s.1
    | inr (inr c) ↦ rw (c, remove) (Above-remove x e xs s.0, remove-IsSorted e xs s.1)
  ]

  find-Above : (e : A) (xs : List A) → Above cmp e xs → find cmp e xs ≡ none
  unfolding find
  find-Above e [] s = refl
  find-Above e (x ∷ xs) s = rw (s.0, find)

  pub find-insert :
      (d e : A) (xs : List A)
      → find cmp d (insert cmp e xs) ≡ when_equal (cmp d e) (some e) (find cmp d xs)
  unfolding insert find
  find-insert d e [] = ground arith
  find-insert d e (x ∷ xs) = elim (Ordering-cases (cmp e x)) [
    | inl c ↦ ground (arith, o.lt_trans d e x)
    | inr (inl c) ↦ ground (arith, eq_right e x d c)
    | inr (inr c) ↦
        ground (arith, find-insert d e xs, o.lt_of_gt e x c, o.lt_trans d x e, o.eq_left d x e)
  ]

  pub find-remove :
      (d e : A) (xs : List A)
      → IsSorted cmp xs
      → find cmp d (remove cmp e xs) ≡ when_equal (cmp d e) none (find cmp d xs)
  unfolding remove find
  find-remove d e [] s = ground arith
  find-remove d e (x ∷ xs) s = elim (Ordering-cases (cmp e x)) [
    | inl c ↦ ground (arith, o.eq_left d e x)
    | inr (inl c) ↦ ground (
      arith,
      eq_right e x d c,
      λ (h : cmp d x ≡ lt). find-Above d xs (Above-trans d x xs h s.0),
      λ (h : cmp d x ≡ eq). find-Above d xs (Above-eq d x xs h s.0),
    )
    | inr (inr c) ↦
        ground (arith, find-remove d e xs s.1, o.lt_of_gt e x c, o.lt_trans d x e, o.eq_left d x e)
  ]
