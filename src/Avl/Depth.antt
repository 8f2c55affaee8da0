-- ===== src/Avl/Depth.antt =====
-- The true depths in a tree whose stored heights are right: they differ by 2 at most, and are
-- logarithmic in the number of nodes.
use native.Mathlib.Nat.{pow-suc}
use librd.Common.{ℕ, zero, suc, ◌+◌, ◌*◌, ◌/◌, ◌-◌, ◌^◌, ◌≤◌, ◌≡◌, arith, inl, inr, max}
use librd.Common.Run.{ok}
use librd.Avl.{Tree, leaf, node, height, balance_node}
use librd.Avl.Join.{balance_node-Balances}
use librd.Avl.Shape.{IsAvl, IsLeaf, IsBalanced, depth, size}

module _ {ℓ} {A : Type ℓ} where
  depth-IsLeaf : (t : Tree A) → IsLeaf t → depth t ≡ 0
  depth-IsLeaf leaf e = omega arith
  depth-IsLeaf (node l h x r) e = absurd e

  -- The stored height is the true one, or less by one.
  pub depth-le-height : (t : Tree A) → IsAvl t → depth t ≤ height t + 1
  depth-le-height leaf a = omega arith
  depth-le-height (node l h x r) (al, ar, inl (z, el, er)) =
      omega (arith, depth-IsLeaf l el, depth-IsLeaf r er)
  depth-le-height (node l h x r) (al, ar, inr e) =
      omega (arith, depth-le-height l al, depth-le-height r ar)

  height-le-depth : (t : Tree A) → IsAvl t → height t ≤ depth t
  height-le-depth leaf a = omega arith
  height-le-depth (node l h x r) (al, ar, inl (z, el, er)) = omega arith
  height-le-depth (node l h x r) (al, ar, inr e) =
      omega (arith, height-le-depth l al, height-le-depth r ar)

  depths-near :
      (l r : Tree A)
      → IsAvl l
      → IsAvl r
      → ((height l ≤ depth l) × (depth l ≤ height l + 1))
        × ((height r ≤ depth r) × (depth r ≤ height r + 1))
  depths-near l r al ar =
      ((height-le-depth l al, depth-le-height l al), (height-le-depth r ar, depth-le-height r ar))

  -- Right stored heights, which differ by 1 at most, keep the true depths within 2.
  pub IsAvl-IsBalanced : (t : Tree A) → IsAvl t → IsBalanced t
  IsAvl-IsBalanced leaf a = tt
  IsAvl-IsBalanced (node l h x r) (al, ar, inl (z, el, er)) = (
    IsAvl-IsBalanced l al,
    IsAvl-IsBalanced r ar,
    omega (arith, depth-IsLeaf l el, depth-IsLeaf r er),
    omega (arith, depth-IsLeaf l el, depth-IsLeaf r er),
  )
  IsAvl-IsBalanced (node l h x r) (al, ar, inr e) =
      let (near, near') = depths-near l r al ar in
      (
        IsAvl-IsBalanced l al,
        IsAvl-IsBalanced r ar,
        omega (arith, e, near, near'),
        omega (arith, e, near, near'),
      )

  -- A tree of height `2 * k` at least has `2 ^ k - 1` nodes at least.
  pub size-pow : (k : ℕ) (t : Tree A) → IsAvl t → 2 * k ≤ height t → 2 ^ k ≤ size t + 1
  size-pow zero t a p = omega arith
  size-pow (suc k) leaf a p = absurd (omega arith)
  size-pow (suc k) (node l h x r) (al, ar, inl z) p = absurd (omega arith)
  size-pow (suc k) (node l h x r) (al, ar, inr e) p =
      omega (arith, pow-suc 2 k, size-pow k l al (omega arith), size-pow k r ar (omega arith))

  -- where the stored heights are right, the depth is logarithmic in the number of nodes
  pub depth_log : (t : Tree A) → IsAvl t → 2 ^ ((depth t - 1) / 2) ≤ size t + 1
  depth_log t a = size-pow ((depth t - 1) / 2) t a (omega (arith, depth-le-height t a))

  -- What a call of rd_avl_balance_node comes to, by the true depths too.
  abbrev pub Balanced : Tree A → ℕ → A → Tree A → Type ℓ
  Balanced l h x r =
      (t : Tree A) × (balance_node (node l h x r) ≡ ok t)
      × IsAvl t
      × IsBalanced t
      × (max (height l) (height r) ≤ height t)
      × (height t ≤ max (height l) (height r) + 1)
      × (max (depth l) (depth r) ≤ depth t + 1)
      × (depth t ≤ max (depth l) (depth r) + 2)

  -- rd_avl_balance_node on a node over two trees whose stored heights are right, but for the 0 of
  -- a leaf that was inserted and not balanced since, and differ by 1 at most at each node within
  -- them, whatever the heights of the two: the fuel is enough, and the result is such a tree. Its
  -- stored height is the larger of the two or one more, the depths of the two subtrees of each of
  -- its nodes differ by 2 at most, and its depth is at least that of the deeper of the two less 1,
  -- and at most that and 2.
  pub balance_node-total :
      (l : Tree A) (h : ℕ) (x : A) (r : Tree A) → IsAvl l → IsAvl r → Balanced l h x r
  balance_node-total l h x r al ar =
      let (t, run, at, lo, hi) = balance_node-Balances l h x r al ar in
      let (near, near') = depths-near l r al ar in
      let near_t = depths-near t t at at in
      (
        t,
        run,
        at,
        IsAvl-IsBalanced t at,
        lo,
        hi,
        omega (arith, lo, hi, near, near', near_t),
        omega (arith, lo, hi, near, near', near_t),
      )
