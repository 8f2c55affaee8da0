-- ===== src/Avl/Foreach.antt =====
-- rd_avl_foreach_node: the elements that the callback is given, in the order of the calls.
use mathlib.Core.List.{Perm, perm_middle, append-nil}
use mathlib.Core.List.Perm
use librd.Common.{◌≡◌, ◌⊎◌, refl, Bool, true, false, List, [], ◌∷◌, ◌++◌, inl, inr}
use librd.Common.{if◌then◌else◌}
use librd.Common.Run.{Run, ok, fault, ◌>>=◌}
use librd.Avl.{Tree, leaf, node}
use librd.Avl.Api.{Avl}
use librd.Avl.Sorted.{to_list}

module _ {ℓ} {A : Type ℓ} where
  abbrev is_null : Tree A → Bool
  is_null leaf = true
  is_null (node l h x r) = false

  -- rd_avl_foreach_node: both children are tested for NULL, `ran` itself is not
  unfoldable pub foreach_node : Tree A → Run (List A)
  foreach_node leaf = fault
  foreach_node (node l h x r) =
      let visit_left = foreach_node l in
      let visit_right = foreach_node r in
      (if is_null l then ok [] else visit_left) >>= λ xs.
      (if is_null r then ok [] else visit_right) >>= λ ys. ok (xs ++ (ys ++ x ∷ []))

  -- rd_avl_foreach
  unfoldable pub foreach : Avl A → Run (List A)
  unfolding foreach_node
  foreach ravl = foreach_node ravl.root

  -- The calls for a tree that may be empty, as a child is visited.
  abbrev visits : Tree A → List A
  visits leaf = []
  visits (node l h x r) = visits l ++ (visits r ++ x ∷ [])

  child : (t : Tree A) → (if is_null t then ok [] else foreach_node t) ≡ ok (visits t)
  unfolding foreach_node
  child leaf = refl
  child (node l h x r) = rw (child l) (rw (child r) refl)

  visits-perm : (t : Tree A) → Perm (visits t) (to_list t)
  visits-perm leaf = Perm.refl []
  visits-perm (node l h x r) =
      Perm.append (visits-perm l)
        (Perm.trans (perm_middle (visits r) []) (Perm.cons x (rw append-nil (visits-perm r))))

  -- On a tree that is not empty, rd_avl_foreach calls back once for each element of the tree, in
  -- some order; on an empty tree it follows the NULL root.
  pub foreach-perm :
      (ravl : Avl A)
      → ((ravl.root ≡ leaf) × (foreach ravl ≡ fault))
        ⊎ ((xs : List A) × (foreach ravl ≡ ok xs) × Perm xs (to_list ravl.root))
  unfolding foreach
  foreach-perm ravl = go ravl.root
    where
      go :
          (t : Tree A)
          → ((t ≡ leaf) × (foreach_node t ≡ fault))
            ⊎ ((xs : List A) × (foreach_node t ≡ ok xs) × Perm xs (to_list t))
      go leaf = inl (refl, refl)
      go (node l h x r) =
          inr (visits (node l h x r), child (node l h x r), visits-perm (node l h x r))
