-- ===== src/Avl/Insert.antt =====
-- rd_avl_insert_node: it returns, keeps the stored heights right, and inserts into the sorted elements.
use Prim.Native.Nat.Ordering.{lt, eq, gt}
use librd.Common.{
  ℕ, ◌≡◌, refl, sym, ◌∙◌, ap, ◌⊎◌, inl, inr, ◌∷◌, ◌++◌, Ordering, Option, none, some,
}
use librd.Common.Run.{ok}
use librd.Avl.{Tree, leaf, node, balance_node, insert_node}
use librd.Avl.Shape.{IsAvl}
use librd.Avl.Join.{balance_node-Balances}
use librd.Avl.Inorder.{balance_node-to_list}
use librd.Avl.Sorted.{
  IsOrder, to_list, insert, find, IsSorted, insert-lt, insert-gt, insert-eq, find-lt, find-gt,
  find-eq, split-IsSorted,
}

-- To split on the comparator's answer.
pub Ordering-cases : (o : Ordering) → (o ≡ lt) ⊎ ((o ≡ eq) ⊎ (o ≡ gt))
Ordering-cases lt = inl refl
Ordering-cases eq = inr (inl refl)
Ordering-cases gt = inr (inr refl)

module _ {ℓ} {A : Type ℓ} (cmp : A → A → Ordering) (elm : A) where
  -- The call returns a tree with right heights whose elements are those of the sorted insertion, and the
  -- element that it replaced is the one that the list held for `elm`.
  abbrev pub Inserts : Tree A → Type ℓ
  Inserts t =
      (t' : Tree A) × (existing : Option A) × (insert_node cmp t elm ≡ ok (t', existing))
      × IsAvl t'
      × (to_list t' ≡ insert cmp elm (to_list t))
      × (existing ≡ find cmp elm (to_list t))

  into_left :
      (l : Tree A) (h : ℕ) (x : A) (r l' t : Tree A) (existing : Option A)
      → cmp elm x ≡ lt
      → insert_node cmp l elm ≡ ok (l', existing)
      → balance_node (node l' h x r) ≡ ok t
      → insert_node cmp (node l h x r) elm ≡ ok (t, existing)
  unfolding insert_node
  into_left l h x r l' t existing c e b = rw (c, insert_node) (rw e (rw b refl))

  into_right :
      (l : Tree A) (h : ℕ) (x : A) (r r' t : Tree A) (existing : Option A)
      → cmp elm x ≡ gt
      → insert_node cmp r elm ≡ ok (r', existing)
      → balance_node (node l h x r') ≡ ok t
      → insert_node cmp (node l h x r) elm ≡ ok (t, existing)
  unfolding insert_node
  into_right l h x r r' t existing c e b = rw (c, insert_node) (rw e (rw b refl))

  here :
      (l : Tree A) (h : ℕ) (x : A) (r : Tree A)
      → cmp elm x ≡ eq
      → insert_node cmp (node l h x r) elm ≡ ok (node l h elm r, some x)
  unfolding insert_node
  here l h x r c = rw (c, insert_node)

  pub insert_node-Inserts :
      IsOrder cmp → (t : Tree A) → IsAvl t → IsSorted cmp (to_list t) → Inserts t
  unfolding insert_node insert find
  insert_node-Inserts o leaf a s =
      (node leaf 0 elm leaf, none, refl, (tt, tt, inl (refl, tt, tt)), refl, refl)
  insert_node-Inserts o (node l h x r) (al, ar, hs) s =
      let (sl, bl, br, sr) = split-IsSorted cmp (to_list l) x (to_list r) s in
      elim (Ordering-cases (cmp elm x)) [
        | inl c ↦
            let (l', existing, e, a, k, f) = insert_node-Inserts o l al sl in
            let (t, b, at, lo, hi) = balance_node-Balances l' h x r a ar in
            (
              t,
              existing,
              into_left l h x r l' t existing c e b,
              at,
              balance_node-to_list (node l' h x r) t b
                  ∙ (ap (λ z. z ++ x ∷ to_list r) k
                      ∙ sym (insert-lt cmp elm x (to_list l) (to_list r) c)),
              f ∙ sym (find-lt cmp elm x (to_list l) (to_list r) c),
            )
        | inr (inl c) ↦ (
          node l h elm r,
          some x,
          here l h x r c,
          (al, ar, hs),
          sym (insert-eq o elm x (to_list l) (to_list r) bl c),
          sym (find-eq o elm x (to_list l) (to_list r) bl c),
        )
        | inr (inr c) ↦
            let (r', existing, e, a, k, f) = insert_node-Inserts o r ar sr in
            let (t, b, at, lo, hi) = balance_node-Balances l h x r' al a in
            (
              t,
              existing,
              into_right l h x r r' t existing c e b,
              at,
              balance_node-to_list (node l h x r') t b
                  ∙ (ap (λ z. to_list l ++ x ∷ z) k
                      ∙ sym (insert-gt o elm x (to_list l) (to_list r) bl c)),
              f ∙ sym (find-gt o elm x (to_list l) (to_list r) bl c),
            )
      ]
