-- ===== src/Avl/Examples.antt =====
-- The AVL tree on numbers: runs of rdavl.c, and its theorems at them.
use Prim.Native.Nat.{compare}
use mathlib.Core.List.{Perm}
use librd.Common.{
  ℕ, ◌+◌, ◌/◌, ◌^◌, ◌-◌, ◌≤◌, ◌≡◌, refl, ◌⊎◌, inl, inr, arith, true, none, some, List, [], ◌∷◌,
}
use librd.Common.Run.{Run, ok, fault, ◌>>=◌}
use librd.Avl.{leaf, node, height}
use librd.Avl.Shape.{IsBalanced, depth, size}
use librd.Avl.Depth.{Balanced, balance_node-total}
use librd.Avl.Built.{IsBuilt, new, inserted, built-depth_log}
use librd.Avl.Sorted.{IsOrder, to_list}
use librd.Avl.Laws.{when_equal}
use librd.Avl.Api
use librd.Avl.Api.{Avl, IsMap, insert_refines, remove_refines}
use librd.Avl.Foreach.{foreach, foreach-perm}

abbrev NatOrder : Type 0
NatOrder = IsOrder {A = ℕ} compare

nat_order : NatOrder
nat_order = record {
  gt_of_lt = λ a b h. ground arith;
  lt_of_gt = λ a b h. ground arith;
  eq_left = λ a b c h. ground arith;
  lt_trans = λ a b c h k. ground arith;
}

-- the stored heights after 1, 2 and 3 were inserted in that order
abbrev three : Avl ℕ
three = record { root = node (node leaf 1 1 leaf) 2 2 (node leaf 0 3 leaf); flags = 0 }

three-IsMap : IsMap compare three
three-IsMap = (
  (
    (tt, tt, inr (refl, omega arith, omega arith)),
    (tt, tt, inl (refl, tt, tt)),
    inr (refl, omega arith, omega arith),
  ),
  ((refl, (refl, tt)), ((refl, tt), (tt, tt))),
)

abbrev insert_three : Run (List ℕ × ℕ)
insert_three = Api.insert compare (Api.init true 0) 3 >>= λ (t, e).
    Api.insert compare t 1 >>= λ (u, f).
    Api.insert compare u 2 >>= λ (v, g). ok (to_list v.root, height v.root)

-- A double rotation in a run from the empty tree.
insert_three_lem : insert_three ≡ ok (1 ∷ 2 ∷ 3 ∷ [], 2)
unfolding Api.insert Api.init Api.find
insert_three_lem = refl

insert_refines_example : Api.Inserted compare three 4
insert_refines_example = insert_refines nat_order three 4 three-IsMap

remove_refines_example : Api.Removed compare three 2
remove_refines_example = remove_refines nat_order three 2 three-IsMap

find-insert_example :
    (t : Avl ℕ) × (Api.insert compare three 4 ≡ ok (t, Api.find compare three 4))
    × (Api.find compare t 3 ≡ when_equal (compare 3 4) (some 4) (Api.find compare three 3))
find-insert_example = Api.find-insert nat_order three 4 3 three-IsMap

find-remove_example :
    (t : Avl ℕ) × (Api.remove compare three 2 ≡ ok t)
    × (Api.find compare t 2 ≡ when_equal (compare 2 2) none (Api.find compare three 2))
find-remove_example = Api.find-remove nat_order three 2 2 three-IsMap

foreach-perm_example :
    ((three.root ≡ leaf) × (foreach three ≡ fault))
    ⊎ ((xs : List ℕ) × (foreach three ≡ ok xs) × Perm xs (to_list three.root))
foreach-perm_example = foreach-perm three

-- Inserted in order, 1, 2 and 3 stay a chain: the leaf's stored height is 0, as that of no node.
abbrev chain_of_three : Avl ℕ
chain_of_three = record { root = node leaf 2 1 (node leaf 1 2 (node leaf 0 3 leaf)); flags = 0 }

abbrev chain_of_one : Avl ℕ
chain_of_one = record { root = node leaf 0 1 leaf; flags = 0 }

abbrev chain_of_two : Avl ℕ
chain_of_two = record { root = node leaf 1 1 (node leaf 0 2 leaf); flags = 0 }

first_run : Api.insert compare (Api.init true 0) 1 ≡ ok (chain_of_one, none)
unfolding Api.insert Api.init
first_run = refl

second_run : Api.insert compare chain_of_one 2 ≡ ok (chain_of_two, none)
unfolding Api.insert
second_run = refl

third_run : Api.insert compare chain_of_two 3 ≡ ok (chain_of_three, none)
unfolding Api.insert
third_run = refl

chain-IsBuilt : IsBuilt compare chain_of_three
chain-IsBuilt =
    inserted chain_of_two chain_of_three 3 none
      (inserted chain_of_one chain_of_two 2 none
        (inserted (Api.init true 0) chain_of_one 1 none (new true 0) first_run) second_run)
      third_run

built-depth_log_example :
    IsBalanced chain_of_three.root
    × (2 ^ ((depth chain_of_three.root - 1) / 2) ≤ size chain_of_three.root + 1)
built-depth_log_example = built-depth_log nat_order chain_of_three chain-IsBuilt

-- A right subtree two higher: one left rotation.
balance_node-total_example : Balanced leaf 0 0 three.root
balance_node-total_example = balance_node-total leaf 0 0 three.root tt three-IsMap.0
