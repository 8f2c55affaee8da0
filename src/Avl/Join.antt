-- ===== src/Avl/Join.antt =====
-- Balancing joins two trees of any stored heights: by induction on the difference.
use librd.Common.{ℕ, zero, suc, ◌+◌, ◌≤◌, ◌<◌, max, ◌≡◌, refl, ◌⊎◌, inl, inr, arith}
use librd.Common.Run.{ok}
use librd.Avl.{Tree, leaf, node, height, enough, balance_node}
use librd.Avl.Mirror.{mirror, height-mirror}
use librd.Avl.Shape.{IsAvl, IsAvl-mirror}
use librd.Avl.Balance.{
  Joins, Lands, joined, Joins-mirror, balance-even, even, single, double, detour,
}

le_cases : (a b : ℕ) → (a ≤ b) ⊎ (b < a)
le_cases a b = omega arith

module _ {ℓ} {A : Type ℓ} where
  Joins-Lands :
      (f : ℕ) (l : Tree A) (h : ℕ) (x : A) (r : Tree A) (n : ℕ)
      → max (height l) (height r) ≡ n
      → Joins f l h x r
      → Lands f l h x r n
  Joins-Lands f l h x r n e (t, q, a, lo, hi) = (t, q, a, omega arith, omega arith)

  -- Where the tree on the left is `joined l x rc`, two higher than `rr`, and its right child `rc`
  -- is the left-heavy one: one double rotation the other way.
  back :
      (g : ℕ) (l : Tree A) (x : A) (a : Tree A) (lx : A) (b : Tree A) (n : ℕ) (rx : A) (rr : Tree A)
      → IsAvl (joined l x (joined a lx b))
      → IsAvl rr
      → height a < height b
      → height l < height (joined a lx b)
      → height l ≡ height rr
      → Joins (suc (suc g)) (joined l x (joined a lx b)) n rx rr
  back g l x a lx b n rx rr aj ar s p e =
      Joins-mirror (suc (suc g)) (joined l x (joined a lx b)) n rx rr (
        double g (mirror rr) n rx (mirror b) _ lx (mirror a) _ x (mirror l)
          (IsAvl-mirror (joined l x (joined a lx b)) aj) (omega (arith, height-mirror rr))
          (omega (arith, height-mirror l)) (omega (arith, height-mirror a, height-mirror b))
          (even g (mirror rr) n rx (mirror b) (IsAvl-mirror rr ar) (IsAvl-mirror b aj.1.1)
            (bound_lo aj) (bound_hi aj)))
    where
      bound_lo : IsAvl (joined l x (joined a lx b)) → height (mirror rr) ≤ height (mirror b) + 1
      bound_lo (al, (aa, ab, inl y), w) = absurd (omega arith)
      bound_lo (al, (aa, ab, inr y), inl w) = absurd (omega arith)
      bound_lo (al, (aa, ab, inr y), inr w) = omega (arith, height-mirror rr, height-mirror b)

      bound_hi : IsAvl (joined l x (joined a lx b)) → height (mirror b) ≤ height (mirror rr) + 1
      bound_hi (al, (aa, ab, inl y), w) = absurd (omega arith)
      bound_hi (al, (aa, ab, inr y), inl w) = absurd (omega arith)
      bound_hi (al, (aa, ab, inr y), inr w) = omega (arith, height-mirror rr, height-mirror b)

  -- The heights differ by two.
  two_heavy :
      (g : ℕ) (l : Tree A) (h : ℕ) (x : A) (al : IsAvl l) (a : Tree A) (lh : ℕ) (lx : A)
      (b : Tree A) (rh : ℕ) (rx : A) (rr : Tree A)
      → IsAvl (node (node a lh lx b) rh rx rr)
      → rh ≡ height l + 2
      → height rr < lh
      → Joins (suc (suc (suc g))) l h x (node (node a lh lx b) rh rx rr)
  two_heavy g l h x al a lh lx b rh rx rr (ac, ar, inl z) e p = absurd (omega arith)
  two_heavy g l h x al a lh lx b rh rx rr ((aa, ab, inl y), ar, inr z) e p = absurd (omega arith)
  two_heavy g l h x al a lh lx b rh rx rr ((aa, ab, inr y), ar, inr z) e p =
      elim (le_cases (height b) (height a)) [
        | inl q ↦
            double (suc g) l h x a lh lx b rh rx rr ((aa, ab, inr y), ar, inr z) (omega arith) p q
              (even (suc g) l h x a al aa (omega arith) (omega arith))
        | inr q ↦
            let ac : IsAvl (joined a lx b) = (aa, ab, inr (refl, y.1, y.2)) in
            let lo : height l ≤ height (joined a lx b) + 1 = omega arith in
            let hi : height (joined a lx b) ≤ height l + 1 = omega arith in
            detour g l h x a lh lx b rh rx rr ((aa, ab, inr y), ar, inr z) (omega arith) p q
              (
                joined l x (joined a lx b),
                balance-even (suc g) l h x (joined a lx b) lo hi,
                (al, ac, inr (refl, lo, hi)),
                omega arith,
                omega arith,
              )
              (Joins-Lands _ _ _ _ _ _ (omega arith) (
                back g l x a lx b _ rx rr (al, ac, inr (refl, lo, hi)) ar q (omega arith)
                  (omega arith)))
      ]

  two_right :
      (g : ℕ) (l : Tree A) (h : ℕ) (x : A) (r : Tree A)
      → IsAvl l
      → IsAvl r
      → height r ≡ height l + 2
      → Joins (suc (suc (suc g))) l h x r
  two_right g l h x leaf al ar e = absurd (omega arith)
  two_right g l h x (node leaf rh rx rr) al (at, ar, inl z) e = absurd (omega arith)
  two_right g l h x (node leaf rh rx rr) al (at, ar, inr z) e =
      single (suc g) l h x leaf rh rx rr (at, ar, inr z) (omega arith) (omega arith)
        (even (suc g) l h x leaf al at (omega arith) (omega arith))
  two_right g l h x (node (node a lh lx b) rh rx rr) al (at, ar, inl z) e = absurd (omega arith)
  two_right g l h x (node (node a lh lx b) rh rx rr) al (at, ar, inr z) e =
      elim (le_cases lh (height rr)) [
        | inl p ↦
            single (suc g) l h x (node a lh lx b) rh rx rr (at, ar, inr z) (omega arith) p
              (even (suc g) l h x (node a lh lx b) al at (omega arith) (omega arith))
        | inr p ↦ two_heavy g l h x al a lh lx b rh rx rr (at, ar, inr z) e p
      ]

  -- The tree that the detour leaves is at most two higher than its right child.
  settle :
      (g : ℕ) (t : Tree A) (n : ℕ) (x : A) (r : Tree A) (k : ℕ)
      → IsAvl t
      → IsAvl r
      → height t ≤ height r + 2
      → height r + 1 ≤ height t
      → height r + 2 ≡ k
      → Lands (suc (suc (suc g))) t n x r k
  settle g t n x r k at ar p q e = elim (le_cases (height t) (height r + 1)) [
    | inl s ↦ (
      joined t x r,
      balance-even (suc (suc g)) t n x r s (omega arith),
      (at, ar, inr (refl, s, omega arith)),
      omega arith,
      omega arith,
    )
    | inr s ↦ Joins-Lands _ _ _ _ _ _ (omega arith) (
        Joins-mirror _ t n x r (
          two_right g (mirror r) n x (mirror t) (IsAvl-mirror r ar) (IsAvl-mirror t at)
            (omega (arith, height-mirror r, height-mirror t))))
  ]

  -- A left-heavy child that is higher by three at least, where the induction hypothesis `ih` joins
  -- `l` with any tree of right heights that is lower than the child.
  heavy_step :
      (g : ℕ) (l : Tree A) (h : ℕ) (x : A) (a : Tree A) (lh : ℕ) (lx : A) (b : Tree A) (rh : ℕ)
      (rx : A) (rr : Tree A)
      → ((t : Tree A)
          → IsAvl t
          → height l ≤ height t + 1
          → height t < rh
          → Joins (suc (suc (suc g))) l h x t)
      → IsAvl (node (node a lh lx b) rh rx rr)
      → height l + 2 < rh
      → height rr < lh
      → Joins (suc (suc (suc (suc g)))) l h x (node (node a lh lx b) rh rx rr)
  heavy_step g l h x a lh lx b rh rx rr ih (ac, ar, inl z) e p = absurd (omega arith)
  heavy_step g l h x a lh lx b rh rx rr ih ((aa, ab, inl y), ar, inr z) e p = absurd (omega arith)
  heavy_step g l h x a lh lx b rh rx rr ih ((aa, ab, inr y), ar, inr z) e p =
      elim (le_cases (height b) (height a)) [
        | inl q ↦
            double (suc (suc g)) l h x a lh lx b rh rx rr ((aa, ab, inr y), ar, inr z) (omega arith)
              p q (ih a aa (omega arith) (omega arith))
        | inr q ↦
            let ac : IsAvl (joined a lx b) = (aa, ab, inr (refl, y.1, y.2)) in
            let (t, et, at, lo, hi) = ih (joined a lx b) ac (omega arith) (omega arith) in
            detour (suc g) l h x a lh lx b rh rx rr ((aa, ab, inr y), ar, inr z) (omega arith) p q
              (t, et, at, lo, hi)
              (settle g t _ rx rr rh at ar (omega arith) (omega arith) (omega arith))
      ]

  step :
      (g : ℕ) (l : Tree A) (h : ℕ) (x : A) (r : Tree A)
      → ((t : Tree A)
          → IsAvl t
          → height l ≤ height t + 1
          → height t < height r
          → Joins (suc (suc (suc g))) l h x t)
      → IsAvl r
      → height l + 2 < height r
      → Joins (suc (suc (suc (suc g)))) l h x r
  step g l h x leaf ih ar e = absurd (omega arith)
  step g l h x (node leaf rh rx rr) ih (at, ar, inl z) e = absurd (omega arith)
  step g l h x (node leaf rh rx rr) ih (at, ar, inr z) e =
      single (suc (suc g)) l h x leaf rh rx rr (at, ar, inr z) (omega arith) (omega arith)
        (ih leaf at (omega arith) (omega arith))
  step g l h x (node (node a lh lx b) rh rx rr) ih (at, ar, inl z) e = absurd (omega arith)
  step g l h x (node (node a lh lx b) rh rx rr) ih (at, ar, inr z) e =
      elim (le_cases lh (height rr)) [
        | inl p ↦
            single (suc (suc g)) l h x (node a lh lx b) rh rx rr (at, ar, inr z) (omega arith) p
              (ih (node a lh lx b) at (omega arith) (omega arith))
        | inr p ↦ heavy_step g l h x a lh lx b rh rx rr ih (at, ar, inr z) e p
      ]

  -- The right child is the higher one, by `d + 2` at most.
  join_right :
      (d g : ℕ) (l : Tree A) (h : ℕ) (x : A) (r : Tree A)
      → IsAvl l
      → IsAvl r
      → height l ≤ height r + 1
      → height r ≤ height l + 2 + d
      → d ≤ g
      → Joins (suc (suc (suc g))) l h x r
  join_right d zero l h x r al ar p q s = elim (le_cases (height r) (height l + 1)) [
    | inl low ↦ even 2 l h x r al ar p low
    | inr high ↦ two_right 0 l h x r al ar (omega arith)
  ]
  join_right zero (suc g) l h x r al ar p q s = elim (le_cases (height r) (height l + 1)) [
    | inl low ↦ even (suc (suc (suc g))) l h x r al ar p low
    | inr high ↦ two_right (suc g) l h x r al ar (omega arith)
  ]
  join_right (suc d) (suc g) l h x r al ar p q s = elim (le_cases (height r) (height l + 1)) [
    | inl low ↦ even (suc (suc (suc g))) l h x r al ar p low
    | inr high ↦ elim (le_cases (height r) (height l + 2)) [
      | inl low ↦ two_right (suc g) l h x r al ar (omega arith)
      | inr more ↦
          step g l h x r (λ t at lo hi. join_right d g l h x t al at lo (omega arith) (omega arith))
            ar more
    ]
  ]

  -- What rd_avl_balance_node comes to on a node over `l` and `r`.
  abbrev pub Balances : Tree A → ℕ → A → Tree A → Type ℓ
  Balances l h x r =
      (t : Tree A) × (balance_node (node l h x r) ≡ ok t)
      × IsAvl t
      × (max (height l) (height r) ≤ height t)
      × (height t ≤ max (height l) (height r) + 1)

  -- The fuel is enough for two trees of any heights.
  pub balance_node-Balances :
      (l : Tree A) (h : ℕ) (x : A) (r : Tree A) → IsAvl l → IsAvl r → Balances l h x r
  unfolding balance_node
  balance_node-Balances l h x r al ar =
      let deep : enough (node l h x r) ≡ suc (suc (suc (height l + height r))) = omega arith in
      elim (le_cases (height l) (height r)) [
        | inl p ↦ rw deep (
            join_right (height r) (height l + height r) l h x r al ar (omega arith) (omega arith)
              (omega arith))
        | inr p ↦ rw deep (
            Joins-mirror (suc (suc (suc (height l + height r)))) l h x r (
              join_right (height l) (height l + height r) (mirror r) h x (mirror l)
                (IsAvl-mirror r ar) (IsAvl-mirror l al)
                (omega (arith, height-mirror l, height-mirror r))
                (omega (arith, height-mirror l, height-mirror r)) (omega arith)))
      ]
