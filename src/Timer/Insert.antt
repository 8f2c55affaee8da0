-- ===== src/Timer/Insert.antt =====
-- LIST_INSERT_SORTED by rd_timer_cmp, for timers that are due at times near each other.
use mathlib.Core.Path.{subst}
use librd.Common.{
  ℕ, ◌+◌, ◌^◌, ◌<◌, ◌≤◌, ◌≡◌, refl, ap, ◌∙◌, arith, true, false, inl, inr, some, List, [], ◌∷◌,
  ◌++◌, All, All-imp, All-insert, leb, Bool-cases,
}
use librd.Common.Run.{ok}
use librd.Timer.{Timer, Heap, cell, cmp_le, insert_sorted}
use librd.Timer.Order.{next_in, next_of, IsAscending, armed_cell}
use librd.Timer.Arm.{load-some}

-- closer than half of the range of an `int`
abbrev pub IsNear : ℕ → ℕ → Type 0
IsNear a b = (a < b + 2 ^ 31) × (b < a + 2 ^ 31)

cmp_le-near : (a b : ℕ) → IsNear a b → cmp_le a b ≡ leb a b
unfolding cmp_le
cmp_le-near a b h = ground (arith, h.0, h.1)

insert_sorted-nil : (heap : Heap) (n e : ℕ) → insert_sorted heap n e [] ≡ ok (e ∷ [])
unfolding insert_sorted
insert_sorted-nil heap n e = refl

insert_sorted-here :
    (heap : Heap) (n e x : ℕ) (xs : List ℕ) (u : Timer)
    → cell heap x ≡ some u
    → cmp_le n u.next ≡ true
    → insert_sorted heap n e (x ∷ xs) ≡ ok (e ∷ x ∷ xs)
unfolding insert_sorted
insert_sorted-here heap n e x xs u here h = rw (load-some heap x u here, insert_sorted, h) refl

insert_sorted-next :
    (heap : Heap) (n e x : ℕ) (xs l : List ℕ) (u : Timer)
    → cell heap x ≡ some u
    → cmp_le n u.next ≡ false
    → insert_sorted heap n e xs ≡ ok l
    → insert_sorted heap n e (x ∷ xs) ≡ ok (x ∷ l)
unfolding insert_sorted
insert_sorted-next heap n e x xs l u here h rest =
    rw (load-some heap x u here, insert_sorted, h, rest) refl

-- The timer is inserted where the times before it are smaller and those after it are not.
pub insert_sorted-split :
    (heap : Heap) (n e : ℕ) (l : List ℕ)
    → All (λ x. 0 < next_of heap x) l
    → All (λ x. IsNear n (next_of heap x)) l
    → IsAscending heap l
    → (front : List ℕ) × (back : List ℕ) × (l ≡ front ++ back)
      × (insert_sorted heap n e l ≡ ok (front ++ e ∷ back))
      × All (λ x. next_of heap x < n) front
      × All (λ x. n ≤ next_of heap x) back
insert_sorted-split heap n e [] armed near ordered =
    ([], [], refl, insert_sorted-nil heap n e, tt, tt)
insert_sorted-split heap n e (x ∷ xs) armed near ordered =
    let (u, here) = armed_cell (cell heap x) armed.0 in
    let when = ap next_in here in
    let test = cmp_le-near n u.next (subst (IsNear n) when near.0) in
    elim (Bool-cases (leb n u.next)) [
      | inl first ↦
          let le : n ≤ u.next = ground (arith, first) in
          (
            [],
            x ∷ xs,
            refl,
            insert_sorted-here heap n e x xs u here (test ∙ first),
            tt,
            (
              omega (arith, le, when),
              All-imp (λ y. next_of heap x ≤ next_of heap y) (λ y. n ≤ next_of heap y) xs
                  (λ y k. omega (arith, le, when, k)) ordered.0,
            ),
          )
      | inr later ↦
          let lt : u.next < n = ground (arith, later) in
          let (front, back, split, run, before, after) =
            insert_sorted-split heap n e xs armed.1 near.1 ordered.1 in
          (
            x ∷ front,
            back,
            ap (λ r. x ∷ r) split,
            insert_sorted-next heap n e x xs (front ++ e ∷ back) u here (test ∙ later) run,
            (omega (arith, lt, when), before),
            after,
          )
    ]

-- the order with one timer more, at the time that the heap has for it
pub IsAscending-insert :
    (heap : Heap) (front back : List ℕ) (e : ℕ)
    → IsAscending heap (front ++ back)
    → All (λ x. next_of heap x ≤ next_of heap e) front
    → All (λ x. next_of heap e ≤ next_of heap x) back
    → IsAscending heap (front ++ e ∷ back)
IsAscending-insert heap [] back e h before after = (after, h)
IsAscending-insert heap (x ∷ front) back e h before after = (
  All-insert (λ y. next_of heap x ≤ next_of heap y) front back e h.0 before.0,
  IsAscending-insert heap front back e h.1 before.1 after,
)
