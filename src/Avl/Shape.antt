-- ===== src/Avl/Shape.antt =====
-- The heights of rdavl.c: what the code keeps of them, and what they are worth.
use librd.Common.{ℕ, suc, ◌+◌, ◌≤◌, max, ◌≡◌, ◌⊎◌, inl, inr, arith}
use librd.Avl.{Tree, leaf, node, height}
use librd.Avl.Mirror.{mirror, height-mirror}

module _ {ℓ} {A : Type ℓ} where
  abbrev pub IsLeaf : Tree A → Type 0
  IsLeaf leaf = Unit
  IsLeaf (node l h x r) = ⊥

  -- What `ran_height` says of a node: a node that was inserted and never balanced has height 0
  -- and no children; any other has the height of its taller child and 1, and they differ by 1.
  abbrev pub Heighted : Tree A → ℕ → Tree A → Type 0
  Heighted l h r =
      ((h ≡ 0) × IsLeaf l × IsLeaf r)
      ⊎ ((h ≡ suc (max (height l) (height r)))
          × (height l ≤ height r + 1)
          × (height r ≤ height l + 1))

  -- The invariant of the tree, of the heights as `ran_height` has them. Since an inserted node has
  -- the height 0 of an absent one, the true depths of the two children may differ by 2.
  abbrev pub IsAvl : Tree A → Type 0
  IsAvl leaf = Unit
  IsAvl (node l h x r) = IsAvl l × IsAvl r × Heighted l h r

  -- the true height, and the number of nodes
  abbrev pub depth : Tree A → ℕ
  depth leaf = 0
  depth (node l h x r) = suc (max (depth l) (depth r))

  abbrev pub size : Tree A → ℕ
  size leaf = 0
  size (node l h x r) = suc (size l + size r)

  -- the depths of the two children of each node differ by 2 at most
  abbrev pub IsBalanced : Tree A → Type 0
  IsBalanced leaf = Unit
  IsBalanced (node l h x r) =
      IsBalanced l × IsBalanced r × (depth l ≤ depth r + 2) × (depth r ≤ depth l + 2)

  IsLeaf-mirror : (t : Tree A) → IsLeaf t → IsLeaf (mirror t)
  IsLeaf-mirror leaf h = tt
  IsLeaf-mirror (node l h x r) e = e

  Heighted-mirror : (l r : Tree A) (h : ℕ) → Heighted l h r → Heighted (mirror r) h (mirror l)
  Heighted-mirror l r h (inl (z, a, b)) = inl (z, IsLeaf-mirror r b, IsLeaf-mirror l a)
  Heighted-mirror l r h (inr e) = inr (rw (height-mirror l, height-mirror r) (omega arith))

  pub IsAvl-mirror : (t : Tree A) → IsAvl t → IsAvl (mirror t)
  IsAvl-mirror leaf a = tt
  IsAvl-mirror (node l h x r) (al, ar, e) =
      (IsAvl-mirror r ar, IsAvl-mirror l al, Heighted-mirror l r h e)
