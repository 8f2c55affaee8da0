-- ===== src/Avl/Inorder.antt =====
-- The rotations of rdavl.c keep the elements and their order.
use mathlib.Core.List.{append_assoc}
use librd.Common.{
  ℕ, zero, suc, ◌+◌, ◌≡◌, sym, ◌∙◌, ap, Bool, true, false, Bool-cases, ltb, inl, inr, List, ◌∷◌,
  ◌++◌, if◌then◌else◌,
}
use librd.Common.Run.{Run, ok, >>=-eq-ok}
use librd.Avl.{Dir, left, right, Tree, leaf, node, height, new_height, rotate}
use librd.Avl.{fix_right, fix_left, balance, balance_node, left_heavy, right_heavy, enough}
use librd.Avl.Sorted.{to_list}

module _ {ℓ} {A : Type ℓ} where
  -- Whatever `bal` returns has the elements of its argument, in their order.
  abbrev KeepsOrder : (Tree A → Run (Tree A)) → Type ℓ
  KeepsOrder bal = (t u : Tree A) → bal t ≡ ok u → to_list u ≡ to_list t

  ok-eq : (t u : Tree A) → ok t ≡ ok u → t ≡ u
  ok-eq t u e = cc

  assoc_turn : (xs ys zs : List A) (x y : A) → (xs ++ x ∷ ys) ++ y ∷ zs ≡ xs ++ x ∷ (ys ++ y ∷ zs)
  assoc_turn xs ys zs x y = append_assoc xs (x ∷ ys) (y ∷ zs)

  module _ (bal : Tree A → Run (Tree A)) (k : KeepsOrder bal) where
    rotate_keeps : (d : Dir) → KeepsOrder (rotate bal d)
    unfolding rotate
    rotate_keeps left leaf u e = cc
    rotate_keeps right leaf u e = cc
    rotate_keeps left (node l h x leaf) u e = cc
    rotate_keeps right (node leaf h x r) u e = cc
    rotate_keeps left (node l h x (node rl rh rx rr)) u e =
        let (t, p, q) = >>=-eq-ok (bal (node l h x rl)) (λ ran. bal (node ran rh rx rr)) e in
        k (node t rh rx rr) u q
        ∙ (ap (λ s. s ++ rx ∷ to_list rr) (k (node l h x rl) t p)
            ∙ assoc_turn (to_list l) (to_list rl) (to_list rr) x rx)
    rotate_keeps right (node (node ll lh lx lr) h x r) u e =
        let (t, p, q) = >>=-eq-ok (bal (node lr h x r)) (λ ran. bal (node ll lh lx ran)) e in
        k (node ll lh lx t) u q
        ∙ (ap (λ s. to_list ll ++ lx ∷ s) (k (node lr h x r) t p)
            ∙ sym (assoc_turn (to_list ll) (to_list lr) (to_list r) lx x))

    turn_keeps :
        (b : Bool) (d : Dir) (t u : Tree A)
        → (if b then rotate bal d t else ok t) ≡ ok u
        → to_list u ≡ to_list t
    turn_keeps true d t u e = rotate_keeps d t u e
    turn_keeps false d t u e = ap to_list (sym (ok-eq t u e))

    fix_right_keeps :
        (l : Tree A) (h : ℕ) (x : A) (r u : Tree A)
        → fix_right bal l h x r ≡ ok u
        → to_list u ≡ to_list (node l h x r)
    unfolding fix_right
    fix_right_keeps l h x r u e =
        let (b, p, q) = >>=-eq-ok (left_heavy r) _ e in
        let (r', s, t) = >>=-eq-ok (if b then rotate bal right r else ok r) _ q in
        rotate_keeps left (node l h x r') u t
        ∙ ap (λ s. to_list l ++ x ∷ s) (turn_keeps b right r r' s)

    fix_left_keeps :
        (l : Tree A) (h : ℕ) (x : A) (r u : Tree A)
        → fix_left bal l h x r ≡ ok u
        → to_list u ≡ to_list (node l h x r)
    unfolding fix_left
    fix_left_keeps l h x r u e =
        let (b, p, q) = >>=-eq-ok (right_heavy l) _ e in
        let (l', s, t) = >>=-eq-ok (if b then rotate bal left l else ok l) _ q in
        rotate_keeps right (node l' h x r) u t
        ∙ ap (λ s. s ++ x ∷ to_list r) (turn_keeps b left l l' s)

  balance_keeps : (f : ℕ) → KeepsOrder (balance f)
  unfolding balance
  balance_keeps zero t u e = cc
  balance_keeps (suc f) leaf u e = cc
  balance_keeps (suc f) (node l h x r) u e = elim (Bool-cases (ltb (height l + 1) (height r))) [
    | inl p ↦ fix_right_keeps (balance f) (balance_keeps f) l h x r u (rw p at e)
    | inr p ↦ elim (Bool-cases (ltb (height r + 1) (height l))) [
      | inl q ↦ fix_left_keeps (balance f) (balance_keeps f) l h x r u (rw (p, q) at e)
      | inr q ↦
          let same : ok (node l (new_height l r) x r) ≡ ok u = rw (p, q) at e in
          ap to_list (sym (ok-eq _ u same))
    ]
  ]

  -- rd_avl_balance_node keeps the elements in order, whenever it returns.
  pub balance_node-to_list : (t u : Tree A) → balance_node t ≡ ok u → to_list u ≡ to_list t
  unfolding balance_node
  balance_node-to_list t u e = balance_keeps (enough t) t u e
