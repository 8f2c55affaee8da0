-- ===== src/Avl/Balance.antt =====
-- rd_avl_balance_node on a node over two trees with right stored heights, which may differ by any
-- amount: it ends, and returns such a tree, whose height is that of the taller one or one more.
use librd.Common.{ℕ, suc, ◌+◌, ◌≤◌, ◌<◌, max, ◌≡◌, refl, ◌∙◌, ap, arith, le→not-ltb, inl, inr}
use librd.Common.Run.{ok, map_run}
use librd.Avl.{left, right, Tree, node, height, new_height, rotate, fix_right, balance}
use librd.Avl.Mirror.{mirror, mirror-mirror, height-mirror, balance-mirror}
use librd.Avl.Shape.{IsAvl, IsAvl-mirror}

module _ {ℓ} {A : Type ℓ} where
  -- The result of one run of `balance`.
  abbrev pub Joins : ℕ → Tree A → ℕ → A → Tree A → Type ℓ
  Joins f l h x r =
      (t : Tree A) × (balance f (node l h x r) ≡ ok t)
      × IsAvl t
      × (max (height l) (height r) ≤ height t)
      × (height t ≤ max (height l) (height r) + 1)

  -- The result of one run, whose height is `n` or one more.
  abbrev pub Lands : ℕ → Tree A → ℕ → A → Tree A → ℕ → Type ℓ
  Lands f l h x r n =
      (t : Tree A) × (balance f (node l h x r) ≡ ok t)
      × IsAvl t
      × (n ≤ height t)
      × (height t ≤ n + 1)

  abbrev pub joined : Tree A → A → Tree A → Tree A
  joined l x r = node l (suc (max (height l) (height r))) x r

  pub Joins-mirror :
      (f : ℕ) (l : Tree A) (h : ℕ) (x : A) (r : Tree A)
      → Joins f (mirror r) h x (mirror l)
      → Joins f l h x r
  Joins-mirror f l h x r (t, e, a, lo, hi) = (
    mirror t,
    ap (balance f) back ∙ (balance-mirror f (mirror (node l h x r)) ∙ ap (map_run mirror) e),
    IsAvl-mirror t a,
    omega (arith, height-mirror t, height-mirror l, height-mirror r),
    omega (arith, height-mirror t, height-mirror l, height-mirror r),
  )
    where
      back : node l h x r ≡ mirror (mirror (node l h x r))
      back = rw (mirror-mirror l, mirror-mirror r)

  new_height-max : (l r : Tree A) → new_height l r ≡ suc (max (height l) (height r))
  unfolding new_height
  new_height-max l r = ground arith

  pub balance-even :
      (g : ℕ) (l : Tree A) (h : ℕ) (x : A) (r : Tree A)
      → height l ≤ height r + 1
      → height r ≤ height l + 1
      → balance (suc g) (node l h x r) ≡ ok (joined l x r)
  unfolding balance
  balance-even g l h x r p q = rw (le→not-ltb _ _ q, le→not-ltb _ _ p, new_height-max l r)

  pub even :
      (g : ℕ) (l : Tree A) (h : ℕ) (x : A) (r : Tree A)
      → IsAvl l
      → IsAvl r
      → height l ≤ height r + 1
      → height r ≤ height l + 1
      → Joins (suc g) l h x r
  even g l h x r al ar p q = (
    joined l x r,
    balance-even g l h x r p q,
    (al, ar, inr (refl, p, q)),
    omega arith,
    omega arith,
  )

  -- One round on a right child that is not left-heavy, and on one that is.
  module _ (f : ℕ) (l : Tree A) (h : ℕ) (x : A) (rl : Tree A) (rh : ℕ) (rx : A) (rr : Tree A) where
    rotate-left :
        (t1 : Tree A)
        → balance f (node l h x rl) ≡ ok t1
        → rotate (balance f) left (node l h x (node rl rh rx rr)) ≡ balance f (node t1 rh rx rr)
    unfolding rotate
    rotate-left t1 e = rw e

    rotate-right :
        (t1 : Tree A)
        → balance f (node rr h x l) ≡ ok t1
        → rotate (balance f) right (node (node rl rh rx rr) h x l) ≡ balance f (node rl rh rx t1)
    unfolding rotate
    rotate-right t1 e = rw e

    light :
        height l + 1 < rh
        → height rl ≤ height rr
        → balance (suc f) (node l h x (node rl rh rx rr))
          ≡ rotate (balance f) left (node l h x (node rl rh rx rr))
    unfolding balance fix_right
    light p q = ground arith

    heavy :
        (r' : Tree A)
        → height l + 1 < rh
        → height rr < height rl
        → rotate (balance f) right (node rl rh rx rr) ≡ ok r'
        → balance (suc f) (node l h x (node rl rh rx rr)) ≡ rotate (balance f) left (node l h x r')
    unfolding balance fix_right
    heavy r' p q e = ground arith

  -- The right child is not left-heavy: one rotation.
  pub single :
      (g : ℕ) (l : Tree A) (h : ℕ) (x : A) (rl : Tree A) (rh : ℕ) (rx : A) (rr : Tree A)
      → IsAvl (node rl rh rx rr)
      → height l + 1 < rh
      → height rl ≤ height rr
      → Joins (suc g) l h x rl
      → Joins (suc (suc g)) l h x (node rl rh rx rr)
  single g l h x rl rh rx rr (al, ar, inl z) p q j = absurd (omega arith)
  single g l h x rl rh rx rr (al, ar, inr z) p q (t, e, a, lo, hi) =
      let lo_side : height t ≤ height rr + 1 = omega arith in
      let hi_side : height rr ≤ height t + 1 = omega arith in
      (
        joined t rx rr,
        light (suc g) l h x rl rh rx rr p q
            ∙ (rotate-left (suc g) l h x rl rh rx rr t e
                ∙ balance-even g t rh rx rr lo_side hi_side),
        (a, ar, inr (refl, lo_side, hi_side)),
        omega arith,
        omega arith,
      )

  -- The right child is left-heavy and its left child is not right-heavy: a double rotation.
  pub double :
      (g : ℕ) (l : Tree A) (h : ℕ) (x : A) (a : Tree A) (lh : ℕ) (lx : A) (b : Tree A) (rh : ℕ)
      (rx : A) (rr : Tree A)
      → IsAvl (node (node a lh lx b) rh rx rr)
      → height l + 1 < rh
      → height rr < lh
      → height b ≤ height a
      → Joins (suc g) l h x a
      → Joins (suc (suc g)) l h x (node (node a lh lx b) rh rx rr)
  double g l h x a lh lx b rh rx rr (al, ar, inl z) p q s j = absurd (omega arith)
  double g l h x a lh lx b rh rx rr ((aa, ab, inl y), ar, inr z) p q s j = absurd (omega arith)
  double g l h x a lh lx b rh rx rr ((aa, ab, inr y), ar, inr z) p q s (t, e, at, lo, hi) =
      let inner_lo : height b ≤ height rr + 1 = omega arith in
      let inner_hi : height rr ≤ height b + 1 = omega arith in
      let mid_lo : height a ≤ height (joined b rx rr) + 1 = omega arith in
      let mid_hi : height (joined b rx rr) ≤ height a + 1 = omega arith in
      let lo_side : height t ≤ height (joined b rx rr) + 1 = omega arith in
      let hi_side : height (joined b rx rr) ≤ height t + 1 = omega arith in
      (
        joined t lx (joined b rx rr),
        heavy (suc g) l h x (node a lh lx b) rh rx rr (joined a lx (joined b rx rr)) p q (
              rotate-right (suc g) rr rh rx a lh lx b (joined b rx rr)
                (balance-even g b rh rx rr inner_lo inner_hi)
              ∙ balance-even g a lh lx (joined b rx rr) mid_lo mid_hi)
            ∙ (rotate-left (suc g) l h x a _ lx (joined b rx rr) t e
                ∙ balance-even g t _ lx (joined b rx rr) lo_side hi_side),
        (at, (ab, ar, inr (refl, inner_lo, inner_hi)), inr (refl, lo_side, hi_side)),
        omega arith,
        omega arith,
      )

  -- Its left child is right-heavy: the right rotation restores the child, and the tree that the left
  -- rotation makes may have to be balanced the other way.
  pub detour :
      (g : ℕ) (l : Tree A) (h : ℕ) (x : A) (a : Tree A) (lh : ℕ) (lx : A) (b : Tree A) (rh : ℕ)
      (rx : A) (rr : Tree A)
      → IsAvl (node (node a lh lx b) rh rx rr)
      → height l + 1 < rh
      → height rr < lh
      → height a < height b
      → (j : Joins (suc (suc g)) l h x (joined a lx b))
      → Lands (suc (suc g)) j.0 (suc (max (height (joined a lx b)) (height rr))) rx rr rh
      → Joins (suc (suc (suc g))) l h x (node (node a lh lx b) rh rx rr)
  detour g l h x a lh lx b rh rx rr (al, ar, inl z) p q s j k = absurd (omega arith)
  detour g l h x a lh lx b rh rx rr ((aa, ab, inl y), ar, inr z) p q s j k = absurd (omega arith)
  detour g l h x a lh lx b rh rx rr ((aa, ab, inr y), ar, inr z) p q s (t, e, at, lo, hi)
        (t2, e2, a2, lo2, hi2) =
      let inner_lo : height b ≤ height rr + 1 = omega arith in
      let inner_hi : height rr ≤ height b + 1 = omega arith in
      (
        t2,
        heavy (suc (suc g)) l h x (node a lh lx b) rh rx rr (joined (joined a lx b) rx rr) p q (
              rotate-right (suc (suc g)) rr rh rx a lh lx b (joined b rx rr)
                (balance-even (suc g) b rh rx rr inner_lo inner_hi)
              ∙ (light (suc g) a lh lx b _ rx rr (omega arith) (omega arith)
                  ∙ (rotate-left (suc g) a lh lx b _ rx rr (joined a lx b)
                        (balance-even g a lh lx b (omega arith) (omega arith))
                      ∙ balance-even g (joined a lx b) _ rx rr (omega arith) (omega arith))))
            ∙ (rotate-left (suc (suc g)) l h x (joined a lx b) _ rx rr t e ∙ e2),
        a2,
        omega arith,
        omega arith,
      )
