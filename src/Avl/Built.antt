-- ===== src/Avl/Built.antt =====
-- The trees that calls of rdavl.c's interface build, starting with rd_avl_init.
use librd.Common.{ℕ, ◌+◌, ◌-◌, ◌/◌, ◌^◌, ◌≤◌, ◌≡◌, sym, ◌∙◌, ap, Bool, Ordering, Option}
use mathlib.Core.Path.{subst}
use librd.Common.Run.{Run, ok}
use librd.Avl.Shape.{IsBalanced, depth, size}
use librd.Avl.Depth.{IsAvl-IsBalanced, depth_log}
use librd.Avl.Sorted.{IsOrder}
use librd.Avl.Api.{Avl, init, insert, remove, IsMap, init-IsMap, insert_refines, remove_refines}

-- the handle after some calls that succeeded, one after another
pub data IsBuilt {ℓ} {A : Type ℓ} (cmp : A → A → Ordering) : Avl A → Type ℓ where
  new : (given : Bool) (flags : ℕ) → IsBuilt cmp (init given flags)
  inserted :
      (ravl ravl' : Avl A) (elm : A) (existing : Option A)
      → IsBuilt cmp ravl
      → insert cmp ravl elm ≡ ok (ravl', existing)
      → IsBuilt cmp ravl'
  removed :
      (ravl ravl' : Avl A) (elm : A)
      → IsBuilt cmp ravl
      → remove cmp ravl elm ≡ ok ravl'
      → IsBuilt cmp ravl'

abbrev returned {ℓ} : {A : Type ℓ} → A → Run A → A
returned d (ok a) = a
returned d _ = d

module _ {ℓ} {A : Type ℓ} {cmp : A → A → Ordering} (o : IsOrder cmp) where
  built-IsMap : (ravl : Avl A) → IsBuilt cmp ravl → IsMap cmp ravl
  built-IsMap _ (new given flags) = init-IsMap cmp given flags
  built-IsMap _ (inserted ravl ravl' elm existing b run) =
      let (t, e, run', m, flat, k, f) = insert_refines o ravl elm (built-IsMap ravl b) in
      subst (λ t. IsMap cmp t)
        (ap (λ r. (returned {A = Avl A × Option A} (t, e) r).0) (sym run' ∙ run)) m
  built-IsMap _ (removed ravl ravl' elm b run) =
      let (t, run', m, flat, k) = remove_refines o ravl elm (built-IsMap ravl b) in
      subst (λ t. IsMap cmp t) (ap (returned t) (sym run' ∙ run)) m

  -- With a comparator that is an order, take any tree that calls of rd_avl_insert and rd_avl_remove_elm
  -- build from the empty tree of rd_avl_init. The depths of the two subtrees of each of its nodes differ
  -- by 2 at most, and a tree of depth `d` has `2 ^ ((d - 1) / 2) - 1` nodes at least: the depth is
  -- logarithmic in the number of nodes.
  pub built-depth_log :
      (ravl : Avl A)
      → IsBuilt cmp ravl
      → IsBalanced ravl.root × (2 ^ ((depth ravl.root - 1) / 2) ≤ size ravl.root + 1)
  built-depth_log ravl b =
      let m = built-IsMap ravl b in (IsAvl-IsBalanced ravl.root m.0, depth_log ravl.root m.0)
