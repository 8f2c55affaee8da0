-- ===== src/Avl/Sorted.antt =====
-- The specification of rdavl.c: the elements in order, as a sorted list over the application's
-- comparator.
use librd.Common.{◌≡◌, refl, ap, ◌∙◌, Ordering, Option, none, some, List, [], ◌∷◌, ◌++◌, All, arith}
use Prim.Native.Nat.Ordering.{lt, eq, gt}
use librd.Avl.{Tree, leaf, node}

-- What `ravl_cmp` has to be: a total order up to the elements that it calls equal.
pub record IsOrder {ℓ} {A : Type ℓ} (cmp : A → A → Ordering) : Type ℓ where
  pub gt_of_lt : (a b : A) → cmp a b ≡ lt → cmp b a ≡ gt
  pub lt_of_gt : (a b : A) → cmp a b ≡ gt → cmp b a ≡ lt
  pub eq_left : (a b c : A) → cmp a b ≡ eq → cmp a c ≡ cmp b c
  pub lt_trans : (a b c : A) → cmp a b ≡ lt → cmp b c ≡ lt → cmp a c ≡ lt

-- the elements of a tree, in order
abbrev pub to_list {ℓ} : {A : Type ℓ} → Tree A → List A
to_list leaf = []
to_list (node l h x r) = to_list l ++ x ∷ to_list r

module _ {ℓ} {A : Type ℓ} (cmp : A → A → Ordering) where
  unfoldable pub insert : A → List A → List A
  insert e [] = e ∷ []
  insert e (x ∷ xs) = elim (cmp e x) [ lt ↦ e ∷ x ∷ xs | eq ↦ e ∷ xs | gt ↦ x ∷ insert e xs ]

  unfoldable pub remove : A → List A → List A
  remove e [] = []
  remove e (x ∷ xs) = elim (cmp e x) [ lt ↦ x ∷ xs | eq ↦ xs | gt ↦ x ∷ remove e xs ]

  unfoldable pub find : A → List A → Option A
  find e [] = none
  find e (x ∷ xs) = elim (cmp e x) [ lt ↦ none | eq ↦ some x | gt ↦ find e xs ]

  abbrev pub Below : A → List A → Type 0
  Below b xs = All (λ x. cmp x b ≡ lt) xs

  abbrev pub Above : A → List A → Type 0
  Above b xs = All (λ x. cmp b x ≡ lt) xs

  abbrev pub IsSorted : List A → Type 0
  IsSorted [] = Unit
  IsSorted (x ∷ xs) = Above x xs × IsSorted xs

  -- Elements that all come before `e` are passed over.
  abbrev Passed : A → List A → Type 0
  Passed e xs = All (λ x. cmp e x ≡ gt) xs

  insert_pass : (e : A) (xs ys : List A) → Passed e xs → insert e (xs ++ ys) ≡ xs ++ insert e ys
  unfolding insert
  insert_pass e [] ys h = refl
  insert_pass e (x ∷ xs) ys h = rw (h.0, insert) (ap (λ t. x ∷ t) (insert_pass e xs ys h.1))

  remove_pass : (e : A) (xs ys : List A) → Passed e xs → remove e (xs ++ ys) ≡ xs ++ remove e ys
  unfolding remove
  remove_pass e [] ys h = refl
  remove_pass e (x ∷ xs) ys h = rw (h.0, remove) (ap (λ t. x ∷ t) (remove_pass e xs ys h.1))

  find_pass : (e : A) (xs ys : List A) → Passed e xs → find e (xs ++ ys) ≡ find e ys
  unfolding find
  find_pass e [] ys h = refl
  find_pass e (x ∷ xs) ys h = rw (h.0, find) (find_pass e xs ys h.1)

  -- Below an element that comes after `e` the work is done before it.
  pub insert-lt :
      (e x : A) (xs ys : List A) → cmp e x ≡ lt → insert e (xs ++ x ∷ ys) ≡ insert e xs ++ x ∷ ys
  unfolding insert
  insert-lt e x [] ys h = rw (h, insert)
  insert-lt e x (y ∷ xs) ys h = ground (arith, insert-lt e x xs ys h)

  pub remove-lt :
      (e x : A) (xs ys : List A) → cmp e x ≡ lt → remove e (xs ++ x ∷ ys) ≡ remove e xs ++ x ∷ ys
  unfolding remove
  remove-lt e x [] ys h = rw (h, remove)
  remove-lt e x (y ∷ xs) ys h = ground (arith, remove-lt e x xs ys h)

  pub find-lt : (e x : A) (xs ys : List A) → cmp e x ≡ lt → find e (xs ++ x ∷ ys) ≡ find e xs
  unfolding find
  find-lt e x [] ys h = rw (h, find)
  find-lt e x (y ∷ xs) ys h = ground (arith, find-lt e x xs ys h)

  -- A sorted list around `x`.
  pub split-IsSorted :
      (xs : List A) (x : A) (ys : List A)
      → IsSorted (xs ++ x ∷ ys)
      → IsSorted xs × Below x xs × Above x ys × IsSorted ys
  split-IsSorted [] x ys s = (tt, tt, s.0, s.1)
  split-IsSorted (y ∷ xs) x ys s =
      let (sx, b, a, sy) = split-IsSorted xs x ys s.1 in
      ((front xs s.0, sx), (middle xs s.0, b), a, sy)
    where
      front : (zs : List A) → Above y (zs ++ x ∷ ys) → Above y zs
      front [] h = tt
      front (z ∷ zs) h = (h.0, front zs h.1)

      middle : (zs : List A) → Above y (zs ++ x ∷ ys) → cmp y x ≡ lt
      middle [] h = h.0
      middle (z ∷ zs) h = middle zs h.1

module _ {ℓ} {A : Type ℓ} {cmp : A → A → Ordering} (o : IsOrder cmp) where
  Passed-gt : (e x : A) (xs : List A) → cmp e x ≡ gt → Below cmp x xs → Passed cmp e xs
  Passed-gt e x [] h b = tt
  Passed-gt e x (y ∷ xs) h b =
      (o.gt_of_lt y e (o.lt_trans y x e b.0 (o.lt_of_gt e x h)), Passed-gt e x xs h b.1)

  Passed-eq : (e x : A) (xs : List A) → cmp e x ≡ eq → Below cmp x xs → Passed cmp e xs
  Passed-eq e x [] h b = tt
  Passed-eq e x (y ∷ xs) h b = (o.eq_left e x y h ∙ o.gt_of_lt y x b.0, Passed-eq e x xs h b.1)

  module _ (e x : A) (xs ys : List A) (b : Below cmp x xs) where
    pub insert-gt : cmp e x ≡ gt → insert cmp e (xs ++ x ∷ ys) ≡ xs ++ x ∷ insert cmp e ys
    unfolding insert
    insert-gt h = insert_pass cmp e xs (x ∷ ys) (Passed-gt e x xs h b) ∙ rw (h, insert)

    pub remove-gt : cmp e x ≡ gt → remove cmp e (xs ++ x ∷ ys) ≡ xs ++ x ∷ remove cmp e ys
    unfolding remove
    remove-gt h = remove_pass cmp e xs (x ∷ ys) (Passed-gt e x xs h b) ∙ rw (h, remove)

    pub find-gt : cmp e x ≡ gt → find cmp e (xs ++ x ∷ ys) ≡ find cmp e ys
    unfolding find
    find-gt h = find_pass cmp e xs (x ∷ ys) (Passed-gt e x xs h b) ∙ rw (h, find)

    pub insert-eq : cmp e x ≡ eq → insert cmp e (xs ++ x ∷ ys) ≡ xs ++ e ∷ ys
    unfolding insert
    insert-eq h = insert_pass cmp e xs (x ∷ ys) (Passed-eq e x xs h b) ∙ rw (h, insert)

    pub remove-eq : cmp e x ≡ eq → remove cmp e (xs ++ x ∷ ys) ≡ xs ++ ys
    unfolding remove
    remove-eq h = remove_pass cmp e xs (x ∷ ys) (Passed-eq e x xs h b) ∙ rw (h, remove)

    pub find-eq : cmp e x ≡ eq → find cmp e (xs ++ x ∷ ys) ≡ some x
    unfolding find
    find-eq h = find_pass cmp e xs (x ∷ ys) (Passed-eq e x xs h b) ∙ rw (h, find)
