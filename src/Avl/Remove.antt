-- ===== src/Avl/Remove.antt =====
-- rd_avl_move, rd_avl_remove_node0 and rd_avl_remove_elm0: they return, keep the heights right, and
-- take the element out of the sorted elements. rd_avl_find_node finds in them.
use Prim.Native.Nat.Ordering.{lt, eq, gt}
use mathlib.Core.List.{append_assoc}
use librd.Common.{ℕ, ◌≡◌, refl, sym, ◌∙◌, ap, inl, inr, ◌∷◌, ◌++◌, Ordering}
use librd.Common.Run.{ok}
use librd.Avl.{Tree, leaf, node, balance_node, move, remove_node, remove_elm, find_node}
use librd.Avl.Shape.{IsAvl}
use librd.Avl.Join.{balance_node-Balances}
use librd.Avl.Inorder.{balance_node-to_list}
use librd.Avl.Insert.{Ordering-cases}
use librd.Avl.Sorted.{
  IsOrder, to_list, remove, find, IsSorted, remove-lt, remove-gt, remove-eq, find-lt, find-gt,
  find-eq, split-IsSorted,
}

module _ {ℓ} {A : Type ℓ} where
  abbrev pub Moves : Tree A → Tree A → Type ℓ
  Moves dst src =
      (t : Tree A) × (move dst src ≡ ok t) × IsAvl t × (to_list t ≡ to_list dst ++ to_list src)

  move_step :
      (l : Tree A) (h : ℕ) (x : A) (r src r' t : Tree A)
      → move r src ≡ ok r'
      → balance_node (node l h x r') ≡ ok t
      → move (node l h x r) src ≡ ok t
  unfolding move
  move_step l h x r src r' t e b = rw e b

  pub move-Moves : (dst src : Tree A) → IsAvl dst → IsAvl src → Moves dst src
  unfolding move
  move-Moves leaf src a s = (src, refl, s, refl)
  move-Moves (node l h x r) src (al, ar, hs) s =
      let (r', e, a, k) = move-Moves r src ar s in
      let (t, b, at, lo, hi) = balance_node-Balances l h x r' al a in
      (
        t,
        move_step l h x r src r' t e b,
        at,
        balance_node-to_list (node l h x r') t b
            ∙ (ap (λ z. to_list l ++ x ∷ z) k
                ∙ sym (append_assoc (to_list l) (x ∷ to_list r) (to_list src))),
      )

module _ {ℓ} {A : Type ℓ} (cmp : A → A → Ordering) (elm : A) where
  abbrev pub Removes : Tree A → Type ℓ
  Removes t =
      (t' : Tree A) × (remove_elm cmp t elm ≡ ok t')
      × IsAvl t'
      × (to_list t' ≡ remove cmp elm (to_list t))

  from_left :
      (l : Tree A) (h : ℕ) (x : A) (r l' t : Tree A)
      → cmp elm x ≡ lt
      → remove_elm cmp l elm ≡ ok l'
      → balance_node (node l' h x r) ≡ ok t
      → remove_elm cmp (node l h x r) elm ≡ ok t
  unfolding remove_elm
  from_left l h x r l' t c e b = rw (c, remove_elm) (rw e b)

  from_right :
      (l : Tree A) (h : ℕ) (x : A) (r r' t : Tree A)
      → cmp elm x ≡ gt
      → remove_elm cmp r elm ≡ ok r'
      → balance_node (node l h x r') ≡ ok t
      → remove_elm cmp (node l h x r) elm ≡ ok t
  unfolding remove_elm
  from_right l h x r r' t c e b = rw (c, remove_elm) (rw e b)

  here :
      (l : Tree A) (h : ℕ) (x : A) (r : Tree A)
      → cmp elm x ≡ eq
      → remove_elm cmp (node l h x r) elm ≡ move l r
  unfolding remove_elm remove_node
  here l h x r c = rw (c, remove_elm)

  pub remove_elm-Removes :
      IsOrder cmp → (t : Tree A) → IsAvl t → IsSorted cmp (to_list t) → Removes t
  unfolding remove_elm remove
  remove_elm-Removes o leaf a s = (leaf, refl, tt, refl)
  remove_elm-Removes o (node l h x r) (al, ar, hs) s =
      let (sl, bl, br, sr) = split-IsSorted cmp (to_list l) x (to_list r) s in
      elim (Ordering-cases (cmp elm x)) [
        | inl c ↦
            let (l', e, a, k) = remove_elm-Removes o l al sl in
            let (t, b, at, lo, hi) = balance_node-Balances l' h x r a ar in
            (
              t,
              from_left l h x r l' t c e b,
              at,
              balance_node-to_list (node l' h x r) t b
                  ∙ (ap (λ z. z ++ x ∷ to_list r) k
                      ∙ sym (remove-lt cmp elm x (to_list l) (to_list r) c)),
            )
        | inr (inl c) ↦
            let (t, e, at, k) = move-Moves l r al ar in
            (t, here l h x r c ∙ e, at, k ∙ sym (remove-eq o elm x (to_list l) (to_list r) bl c))
        | inr (inr c) ↦
            let (r', e, a, k) = remove_elm-Removes o r ar sr in
            let (t, b, at, lo, hi) = balance_node-Balances l h x r' al a in
            (
              t,
              from_right l h x r r' t c e b,
              at,
              balance_node-to_list (node l h x r') t b
                  ∙ (ap (λ z. to_list l ++ x ∷ z) k
                      ∙ sym (remove-gt o elm x (to_list l) (to_list r) bl c)),
            )
      ]

  pub find_node-find :
      IsOrder cmp
      → (t : Tree A) → IsSorted cmp (to_list t)
      → find_node cmp t elm ≡ find cmp elm (to_list t)
  unfolding find_node find
  find_node-find o leaf s = refl
  find_node-find o (node l h x r) s =
      let (sl, bl, br, sr) = split-IsSorted cmp (to_list l) x (to_list r) s in
      elim (Ordering-cases (cmp elm x)) [
        | inl c ↦
            rw (c, find_node)
              (find_node-find o l sl ∙ sym (find-lt cmp elm x (to_list l) (to_list r) c))
        | inr (inl c) ↦ rw (c, find_node) (sym (find-eq o elm x (to_list l) (to_list r) bl c))
        | inr (inr c) ↦
            rw (c, find_node)
              (find_node-find o r sr ∙ sym (find-gt o elm x (to_list l) (to_list r) bl c))
      ]
