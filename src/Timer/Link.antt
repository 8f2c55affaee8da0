-- ===== src/Timer/Link.antt =====
-- The list of timers with one timer more.
use mathlib.Core.Path.{subst}
use librd.Common.{
  All-of_In, ℕ, ◌<◌, ◌≤◌, ◌≡◌, ◌≢◌, ap, sym, ◌∙◌, arith, inl, inr, none, some, List, ◌∷◌, ◌++◌, All,
  All-append_left, All-append_right, All-imp, All-both, All-insert, Bool-cases, get_or-set_self,
  get_or-bound, set, In, In-insert, In-inserted, IsDistinct, IsDistinct-insert, ◌==◌, ==_iff,
  not-==→ne,
}
use librd.Timer.{Timer, Timers, Heap, Timespec, cell, write, of_timespec}
use librd.Timer.Order.{next_in, next_of, IsAscending, IsTimers, next_of-set_ne, IsAscending-ext}
use librd.Timer.Insert.{IsAscending-insert}

-- a heap with the same times
pub IsTimers-ext :
    (s : Timers) (heap' : Heap)
    → ((x : ℕ) → next_of heap' x ≡ next_of s.heap x)
    → IsTimers s
    → IsTimers (record s { heap = heap' })
IsTimers-ext s heap' same v = record {
  armed = All-imp _ (λ x. 0 < next_of heap' x) s.list (λ x k. omega (arith, same x, k)) v.armed;
  linked = λ x h. v.linked x (omega (arith, same x, h));
  ordered = IsAscending-ext s.heap heap' s.list (All-of_In _ s.list (λ x m. same x)) v.ordered;
  distinct = v.distinct;
  early =
      All-imp _ (λ x. of_timespec s.next_ts ≤ next_of heap' x) s.list
        (λ x k. omega (arith, same x, k)) v.early;
}

-- a timer that was not armed is linked between those before it and those after it
pub linked-IsTimers :
    (s : Timers) (e n : ℕ) (t : Timer) (front back : List ℕ) (ts : Timespec)
    → IsTimers s
    → cell s.heap e ≡ some t
    → t.next ≡ 0
    → 0 < n
    → s.list ≡ front ++ back
    → All (λ x. next_of s.heap x ≤ n) front
    → All (λ x. n ≤ next_of s.heap x) back
    → of_timespec ts ≤ n
    → All (λ x. of_timespec ts ≤ next_of s.heap x) s.list
    → IsTimers
        (record (write s e (record t { next = n })) { list = front ++ e ∷ back; next_ts = ts })
linked-IsTimers s e n t front back ts v here idle soon split before after first early =
    let heap' : Heap = set s.heap e (some (record t { next = n })) in
    let self : next_of heap' e ≡ n = ap next_in (
      get_or-set_self s.heap e (some (record t { next = n })) none
        (get_or-bound s.heap e t here)) in
    let zero_here = ap next_in here ∙ idle in
    let apart =
      All-imp (λ x. 0 < next_of s.heap x) (λ x. x ≢ e) (front ++ back)
        (λ x k p. let z = ap (next_of s.heap) p in omega (arith, z, k, zero_here))
        (subst (All (λ x. 0 < next_of s.heap x)) split v.armed) in
    let same =
      All-imp (λ x. x ≢ e) (λ x. next_of heap' x ≡ next_of s.heap x) (front ++ back)
        (λ x k. next_of-set_ne s.heap e x _ k) apart in
    let same_front = All-append_left _ front back same in
    let same_back = All-append_right _ front back same in
    record {
      armed =
          All-insert (λ x. 0 < next_of heap' x) front back e
            (All-imp (λ x. (next_of heap' x ≡ next_of s.heap x) × (0 < next_of s.heap x))
              (λ x. 0 < next_of heap' x) (front ++ back) (λ x k. omega (arith, k))
              (All-both _ _ (front ++ back) same
                (subst (All (λ x. 0 < next_of s.heap x)) split v.armed)))
            (omega (arith, self, soon));
      linked = λ x h. elim (Bool-cases (x == e)) [
        | inl eq ↦
            subst (λ y. In y (front ++ e ∷ back)) (sym ((==_iff x e).0 eq))
              (In-inserted front back e)
        | inr ne ↦
            let old =
              next_of-set_ne s.heap e x (some (record t { next = n })) (λ p. not-==→ne x e ne p) in
            In-insert front back e x (subst (In x) split (v.linked x (omega (arith, old, h))))
      ];
      ordered =
          IsAscending-insert heap' front back e
            (IsAscending-ext s.heap heap' (front ++ back) same
              (subst (IsAscending s.heap) split v.ordered))
            (All-imp (λ x. (next_of heap' x ≡ next_of s.heap x) × (next_of s.heap x ≤ n))
              (λ x. next_of heap' x ≤ next_of heap' e) front (λ x k. omega (arith, k, self))
              (All-both _ _ front same_front before))
            (All-imp (λ x. (next_of heap' x ≡ next_of s.heap x) × (n ≤ next_of s.heap x))
              (λ x. next_of heap' e ≤ next_of heap' x) back (λ x k. omega (arith, k, self))
              (All-both _ _ back same_back after));
      distinct = IsDistinct-insert front back e (subst IsDistinct split v.distinct) apart;
      early =
          All-insert (λ x. of_timespec ts ≤ next_of heap' x) front back e
            (All-imp
              (λ x. (next_of heap' x ≡ next_of s.heap x) × (of_timespec ts ≤ next_of s.heap x))
              (λ x. of_timespec ts ≤ next_of heap' x) (front ++ back) (λ x k. omega (arith, k))
              (All-both _ _ (front ++ back) same
                (subst (All (λ x. of_timespec ts ≤ next_of s.heap x)) split early)))
            (omega (arith, self, first));
    }
