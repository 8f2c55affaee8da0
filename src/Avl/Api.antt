-- ===== src/Avl/Api.antt =====
-- rd_avl_init, rd_avl_insert, rd_avl_remove_elm and rd_avl_find: the handle over the tree. Calls are
-- one after another: the read-write lock, taken when the flag says so, is not modelled.
use librd.Common.{ℕ, ◌≡◌, ◌∙◌, sym, Bool, Ordering, Option, none, some, bit_or, if◌then◌else◌}
use librd.Common.Run.{Run, ok, ◌>>=◌}
use librd.Avl.{Tree, leaf, insert_node, remove_elm, find_node}
use librd.Avl.Shape.{IsAvl, IsBalanced}
use librd.Avl.Depth.{IsAvl-IsBalanced}
use librd.Avl.Insert.{insert_node-Inserts}
use librd.Avl.Remove.{remove_elm-Removes, find_node-find}
use librd.Avl.Sorted
use librd.Avl.Sorted.{IsOrder, to_list, IsSorted}
use librd.Avl.Laws
use librd.Avl.Laws.{insert-IsSorted, remove-IsSorted, when_equal}

-- `rd_avl_t`; `ravl_cmp` is a parameter of the operations
pub record Avl {ℓ} (A : Type ℓ) : Type ℓ where
  pub root : Tree A
  pub flags : ℕ

-- RD_AVL_F_OWNER
abbrev pub owner_flag : ℕ
owner_flag = 2

-- rd_avl_init; `given` says whether the caller gave the memory
unfoldable pub init {ℓ} : {A : Type ℓ} → Bool → ℕ → Avl A
init given flags = record { root = leaf; flags = if given then flags else bit_or flags owner_flag }

module _ {ℓ} {A : Type ℓ} (cmp : A → A → Ordering) where
  -- rd_avl_insert
  unfoldable pub insert : Avl A → A → Run (Avl A × Option A)
  unfolding insert_node
  insert ravl elm = insert_node cmp ravl.root elm >>= λ (root, existing).
      ok (record ravl { root = root }, existing)

  -- rd_avl_remove_elm
  unfoldable pub remove : Avl A → A → Run (Avl A)
  unfolding remove_elm
  remove ravl elm = remove_elm cmp ravl.root elm >>= λ root. ok (record ravl { root = root })

  -- rd_avl_find
  unfoldable pub find : Avl A → A → Option A
  unfolding find_node
  find ravl elm = find_node cmp ravl.root elm

  -- The handle's invariant: stored heights that are right, but for the 0 of a leaf that was inserted and
  -- not balanced since, and differ by 1 at most at each node, and elements sorted by the comparator.
  abbrev pub IsMap : Avl A → Type 0
  IsMap ravl = IsAvl ravl.root × IsSorted cmp (to_list ravl.root)

  -- What a call of rd_avl_insert comes to.
  abbrev pub Inserted : Avl A → A → Type ℓ
  Inserted ravl elm =
      (ravl' : Avl A) × (existing : Option A) × (insert ravl elm ≡ ok (ravl', existing))
      × IsMap ravl'
      × IsBalanced ravl'.root
      × (to_list ravl'.root ≡ Sorted.insert cmp elm (to_list ravl.root))
      × (existing ≡ find ravl elm)

  -- What a call of rd_avl_remove_elm comes to.
  abbrev pub Removed : Avl A → A → Type ℓ
  Removed ravl elm =
      (ravl' : Avl A) × (remove ravl elm ≡ ok ravl')
      × IsMap ravl'
      × IsBalanced ravl'.root
      × (to_list ravl'.root ≡ Sorted.remove cmp elm (to_list ravl.root))

  pub init-IsMap : (given : Bool) (flags : ℕ) → IsMap (init given flags)
  unfolding init
  init-IsMap given flags = (tt, tt)

module _ {ℓ} {A : Type ℓ} {cmp : A → A → Ordering} (o : IsOrder cmp) where
  -- With a comparator that is an order, rd_avl_insert on a sorted tree whose stored heights are right,
  -- but for the 0 of a leaf that was inserted and not balanced since, and differ by 1 at most at each
  -- node returns: no NULL is followed and the recursion of the
  -- balancing ends. The new tree is such a tree again, the true depths of the two subtrees of each of
  -- its nodes differ by 2 at most, it holds the elements of the sorted insertion, and the element
  -- returned is the one that was replaced.
  pub insert_refines : (ravl : Avl A) (elm : A) → IsMap cmp ravl → Inserted cmp ravl elm
  unfolding insert find
  insert_refines ravl elm (a, s) =
      let (t, existing, e, at, k, f) = insert_node-Inserts cmp elm o ravl.root a s in
      (
        record ravl { root = t },
        existing,
        rw e,
        (at, rw k (insert-IsSorted o elm (to_list ravl.root) s)),
        IsAvl-IsBalanced t at,
        k,
        f ∙ sym (find_node-find cmp elm o ravl.root s),
      )

  -- With a comparator that is an order, rd_avl_remove_elm on a sorted tree whose stored heights are
  -- right, but for the 0 of a leaf that was inserted and not balanced since, and differ by 1 at most at
  -- each node returns such a tree again. The true depths of the two
  -- subtrees of each of its nodes differ by 2 at most, and it holds the elements of the sorted removal.
  pub remove_refines : (ravl : Avl A) (elm : A) → IsMap cmp ravl → Removed cmp ravl elm
  unfolding remove
  remove_refines ravl elm (a, s) =
      let (t, e, at, k) = remove_elm-Removes cmp elm o ravl.root a s in
      (
        record ravl { root = t },
        rw e,
        (at, rw k (remove-IsSorted o elm (to_list ravl.root) s)),
        IsAvl-IsBalanced t at,
        k,
      )

  find-Sorted :
      (ravl : Avl A) (elm : A)
      → IsMap cmp ravl
      → find cmp ravl elm ≡ Sorted.find cmp elm (to_list ravl.root)
  unfolding find
  find-Sorted ravl elm m = find_node-find cmp elm o ravl.root m.1

  -- After an insertion into a sorted tree that meets the invariant of the handle, a search for any
  -- `key` finds the inserted element if `key` compares equal to it, and else what it found before;
  -- and what the insertion returns is what was found for the inserted element before.
  pub find-insert :
      (ravl : Avl A) (elm key : A)
      → IsMap cmp ravl
      → (ravl' : Avl A) × (insert cmp ravl elm ≡ ok (ravl', find cmp ravl elm))
        × (find cmp ravl' key ≡ when_equal (cmp key elm) (some elm) (find cmp ravl key))
  find-insert ravl elm key m =
      let (ravl', existing, e, m', b, k, f) = insert_refines ravl elm m in
      (
        ravl',
        rw (← f) e,
        find-Sorted ravl' key m'
            ∙ (rw (k, find-Sorted ravl key m) (Laws.find-insert o key elm (to_list ravl.root))),
      )

  -- After a removal from a sorted tree that meets the invariant of the handle, a search for any
  -- `key` finds nothing if `key` compares equal to the removed element, and else what it found
  -- before.
  pub find-remove :
      (ravl : Avl A) (elm key : A)
      → IsMap cmp ravl
      → (ravl' : Avl A) × (remove cmp ravl elm ≡ ok ravl')
        × (find cmp ravl' key ≡ when_equal (cmp key elm) none (find cmp ravl key))
  find-remove ravl elm key m =
      let (ravl', e, m', b, k) = remove_refines ravl elm m in
      (
        ravl',
        e,
        find-Sorted ravl' key m'
            ∙ (rw (k, find-Sorted ravl key m) (Laws.find-remove o key elm (to_list ravl.root) m.1)),
      )
