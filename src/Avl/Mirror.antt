-- ===== src/Avl/Mirror.antt =====
-- rd_avl_balance_node treats its two sides alike: it commutes with swapping them everywhere.
use librd.Common.{ℕ, zero, suc, ◌≡◌, refl, arith, Bool-cases, ltb, inl, inr}
use librd.Common.Run.{Run, ok, fault, out_of_fuel, ◌>>=◌, map_run}
use librd.Avl.{Dir, left, right, Tree, leaf, node, height, new_height, rotate}
use librd.Avl.{fix_right, fix_left, balance}

flip : Dir → Dir
flip left = right
flip right = left

module _ {ℓ} {A : Type ℓ} where
  abbrev pub mirror : Tree A → Tree A
  mirror leaf = leaf
  mirror (node l h x r) = node (mirror r) h x (mirror l)

  pub mirror-mirror : (t : Tree A) → mirror (mirror t) ≡ t
  mirror-mirror leaf = refl
  mirror-mirror (node l h x r) = rw (mirror-mirror l, mirror-mirror r)

  pub height-mirror : (t : Tree A) → height (mirror t) ≡ height t
  height-mirror leaf = refl
  height-mirror (node l h x r) = refl

  abbrev Commutes : (Tree A → Run (Tree A)) → Type ℓ
  Commutes bal = (t : Tree A) → bal (mirror t) ≡ map_run mirror (bal t)

  bind-mirror :
      (m : Run (Tree A)) (k k' : Tree A → Run (Tree A))
      → ((t : Tree A) → k' (mirror t) ≡ map_run mirror (k t))
      → (map_run mirror m >>= k') ≡ map_run mirror (m >>= k)
  bind-mirror (ok t) k k' e = e t
  bind-mirror fault k k' e = refl
  bind-mirror out_of_fuel k k' e = refl

  new_height-mirror : (l r : Tree A) → new_height (mirror r) (mirror l) ≡ new_height l r
  unfolding new_height
  new_height-mirror l r = rw (height-mirror l, height-mirror r) (ground arith)

  module _ (bal : Tree A → Run (Tree A)) (c : Commutes bal) where
    rotate-mirror :
        (d : Dir) (t : Tree A) → rotate bal (flip d) (mirror t) ≡ map_run mirror (rotate bal d t)
    unfolding rotate flip
    rotate-mirror left leaf = refl
    rotate-mirror right leaf = refl
    rotate-mirror left (node l h x leaf) = refl
    rotate-mirror right (node leaf h x r) = refl
    rotate-mirror left (node l h x (node rl rh rx rr)) =
        rw (c (node l h x rl)) (bind-mirror (bal (node l h x rl)) _ _ (λ t. c (node t rh rx rr)))
    rotate-mirror right (node (node ll lh lx lr) h x r) =
        rw (c (node lr h x r)) (bind-mirror (bal (node lr h x r)) _ _ (λ t. c (node ll lh lx t)))

    fix_right-mirror :
        (l : Tree A) (h : ℕ) (x : A) (r : Tree A)
        → fix_left bal (mirror r) h x (mirror l) ≡ map_run mirror (fix_right bal l h x r)
    unfolding fix_left fix_right flip
    fix_right-mirror l h x leaf = refl
    fix_right-mirror l h x (node a rh rx b) = elim (Bool-cases (ltb (height b) (height a))) [
      | inl e ↦
          rw (height-mirror a, height-mirror b, e, rotate-mirror right (node a rh rx b))
            (bind-mirror (rotate bal right (node a rh rx b)) _ _
              (λ t. rotate-mirror left (node l h x t)))
      | inr e ↦
          rw (height-mirror a, height-mirror b, e)
            (rotate-mirror left (node l h x (node a rh rx b)))
    ]

    fix_left-mirror :
        (l : Tree A) (h : ℕ) (x : A) (r : Tree A)
        → fix_right bal (mirror r) h x (mirror l) ≡ map_run mirror (fix_left bal l h x r)
    unfolding fix_left fix_right flip
    fix_left-mirror leaf h x r = refl
    fix_left-mirror (node a lh lx b) h x r = elim (Bool-cases (ltb (height a) (height b))) [
      | inl e ↦
          rw (height-mirror a, height-mirror b, e, rotate-mirror left (node a lh lx b))
            (bind-mirror (rotate bal left (node a lh lx b)) _ _
              (λ t. rotate-mirror right (node t h x r)))
      | inr e ↦
          rw (height-mirror a, height-mirror b, e)
            (rotate-mirror right (node (node a lh lx b) h x r))
    ]

  pub balance-mirror : (f : ℕ) (t : Tree A) → balance f (mirror t) ≡ map_run mirror (balance f t)
  unfolding balance
  balance-mirror zero t = refl
  balance-mirror (suc f) leaf = refl
  balance-mirror (suc f) (node l h x r) = ground (
    arith,
    height-mirror l,
    height-mirror r,
    new_height-mirror l r,
    fix_right-mirror (balance f) (balance-mirror f) l h x r,
    fix_left-mirror (balance f) (balance-mirror f) l h x r,
  )
