-- ===== src/Avl.antt =====
-- rdavl.c and rdavl.h: the AVL tree. A tree owns its nodes, so `rd_avl_node_t *` is a tree and a
-- function that relinks nodes returns the new tree. `ran_height` is stored, as in the source, and
-- may be stale until `balance_node` writes it: an inserted node starts with height 0.
pub mod Mirror
pub mod Shape
pub mod Balance
pub mod Join
pub mod Sorted
pub mod Inorder
pub mod Insert
pub mod Remove
pub mod Depth
pub mod Laws
pub mod Api
pub mod Built
pub mod Foreach
mod Examples
use librd.Common.{
  ℕ, zero, suc, ◌+◌, ltb, if◌then◌else◌, Ordering, Option, none, some, List, [], ◌∷◌, ◌++◌, Bool,
}
use librd.Common.Run.{Run, ok, fault, out_of_fuel, ◌>>=◌}

-- `rd_avl_dir_t`
pub data Dir : Type 0 where
  left right : Dir

-- `rd_avl_node_t *`: NULL, or the fields ran_p[LEFT], ran_height, ran_elm and ran_p[RIGHT]
pub data Tree {ℓ} (A : Type ℓ) : Type ℓ where
  leaf : Tree A
  node : Tree A → ℕ → A → Tree A → Tree A

module _ {ℓ} {A : Type ℓ} where
  -- RD_AVL_NODE_HEIGHT
  abbrev pub height : Tree A → ℕ
  height leaf = 0
  height (node l h x r) = h

  -- `RD_AVL_NODE_DELTA(ran) > 0` and `RD_AVL_NODE_DELTA(ran) < 0`, which follow `ran`
  abbrev pub left_heavy : Tree A → Run Bool
  left_heavy leaf = fault
  left_heavy (node l h x r) = ok (ltb (height r) (height l))

  abbrev pub right_heavy : Tree A → Run Bool
  right_heavy leaf = fault
  right_heavy (node l h x r) = ok (ltb (height l) (height r))

  -- the three assignments to `ran_height` at the end of rd_avl_balance_node
  unfoldable pub new_height : Tree A → Tree A → ℕ
  new_height l r =
      let h : ℕ = if ltb 0 (height l) then height l else 0 in
      suc (if ltb h (height r) then height r else h)

  -- rd_avl_rotate over rd_avl_balance_node, which it calls twice
  unfoldable pub rotate : (Tree A → Run (Tree A)) → Dir → Tree A → Run (Tree A)
  rotate balance left (node l h x (node rl rh rx rr)) = do
    ran ← balance (node l h x rl)
    balance (node ran rh rx rr)
  rotate balance right (node (node ll lh lx lr) h x r) = do
    ran ← balance (node lr h x r)
    balance (node ll lh lx ran)
  rotate balance _ _ = fault

  -- The branches of rd_avl_balance_node for `d < -1` and for `d > 1`.
  unfoldable pub fix_right : (Tree A → Run (Tree A)) → Tree A → ℕ → A → Tree A → Run (Tree A)
  fix_right balance l h x r = do
    heavy ← left_heavy r
    r' ← (if heavy then rotate balance right r else ok r)
    rotate balance left (node l h x r')

  unfoldable pub fix_left : (Tree A → Run (Tree A)) → Tree A → ℕ → A → Tree A → Run (Tree A)
  fix_left balance l h x r = do
    heavy ← right_heavy l
    l' ← (if heavy then rotate balance left l else ok l)
    rotate balance right (node l' h x r)

  -- rd_avl_balance_node and rd_avl_rotate call one another: on fuel. `d < -1` is
  -- `height l + 1 < height r`.
  unfoldable pub balance : ℕ → Tree A → Run (Tree A)
  balance zero ran = out_of_fuel
  balance (suc f) leaf = fault
  balance (suc f) (node l h x r) =
      if ltb (height l + 1) (height r)
      then fix_right (balance f) l h x r
      else if ltb (height r + 1) (height l)
      then fix_left (balance f) l h x r
      else ok (node l (new_height l r) x r)

  -- One call deeper for each level by which the two heights differ, and three to spare.
  abbrev pub enough : Tree A → ℕ
  enough leaf = 1
  enough (node l h x r) = height l + height r + 3

  unfoldable pub balance_node : Tree A → Run (Tree A)
  unfolding balance fix_left fix_right rotate new_height
  balance_node ran = balance (enough ran) ran

  -- rd_avl_move, at its only direction: `src` goes to the right end of `dst`
  unfoldable pub move : Tree A → Tree A → Run (Tree A)
  unfolding balance_node
  move leaf src = ok src
  move (node l h x r) src = do r' ← move r src; balance_node (node l h x r')

  -- rd_avl_remove_node0
  unfoldable pub remove_node : Tree A → Run (Tree A)
  unfolding move
  remove_node leaf = fault
  remove_node (node l h x r) = move l r

-- `ravl_cmp` is the application's; its result is read by its sign only.
module _ {ℓ} {A : Type ℓ} (cmp : A → A → Ordering) where
  -- rd_avl_insert_node: `ran` holds `elm`, and the element of `*existing` is returned beside the tree
  unfoldable pub insert_node : Tree A → A → Run (Tree A × Option A)
  unfolding balance_node
  insert_node leaf elm = ok (node leaf 0 elm leaf, none)
  insert_node (node l h x r) elm = elim (cmp elm x) [
    | Ordering.eq ↦ ok (node l h elm r, some x)
    | Ordering.lt ↦ insert_node l elm >>= λ (l', existing).
        balance_node (node l' h x r) >>= λ t. ok (t, existing)
    | Ordering.gt ↦ insert_node r elm >>= λ (r', existing).
        balance_node (node l h x r') >>= λ t. ok (t, existing)
  ]

  -- rd_avl_remove_elm0
  unfoldable pub remove_elm : Tree A → A → Run (Tree A)
  unfolding balance_node remove_node
  remove_elm leaf elm = ok leaf
  remove_elm (node l h x r) elm = elim (cmp elm x) [
    | Ordering.eq ↦ remove_node (node l h x r)
    | Ordering.lt ↦ remove_elm l elm >>= λ l'. balance_node (node l' h x r)
    | Ordering.gt ↦ remove_elm r elm >>= λ r'. balance_node (node l h x r')
  ]

  -- rd_avl_find_node, as the element of the node that it returns
  unfoldable pub find_node : Tree A → A → Option A
  find_node leaf elm = none
  find_node (node l h x r) elm = elim (cmp elm x) [
    | Ordering.eq ↦ some x
    | Ordering.lt ↦ find_node l elm
    | Ordering.gt ↦ find_node r elm
  ]
