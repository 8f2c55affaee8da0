-- ===== src/Timer/Start.antt =====
-- rd_timer_start, through rd_timer_start0: the timer is armed, in its place of the list.
use mathlib.Core.Path.{subst}
use librd.Common.{
  ℕ, ◌+◌, ◌*◌, ◌%◌, ◌^◌, ◌<◌, ◌≤◌, ◌≡◌, ◌≢◌, refl, ap, sym, ◌∙◌, arith, true, false, inl, inr, none,
  some, List, [], ◌∷◌, ◌++◌, All, All-append_left, All-append_right, All-imp, All-both, ltb,
  Bool-cases, get_or-set_self, get_or-set_ne, get_or-bound, set, ◌==◌, ==_iff, not-==→ne,
}
use librd.Common.Run.{ok}
use librd.Timer.{
  Timer, Timers, Heap, Timespec, cell, write, of_timespec, to_timespec, start0, start, stop0,
  insert_sorted,
}
use librd.Timer.Order.{
  next_in, next_of, IsTimers, next_of-set_ne, IsAscending-ext, of_timespec-to_timespec,
}
use librd.Timer.Arm.{load-some, next_update-some, stop0-IsTimers}
use librd.Timer.Insert.{IsNear, insert_sorted-split}
use librd.Timer.Link.{IsTimers-ext, linked-IsTimers}

-- what `rd_clock() + (interval_ms * 1000)` is
abbrev pub due_at : ℕ → ℕ → ℕ
due_at clock interval_ms = (clock + interval_ms * 1000 % 2 ^ 32) % 2 ^ 64

module _ (s s' : Timers) (clock e i : ℕ) (t : Timer) (stopped : stop0 s clock e ≡ ok s')
    (here : cell s'.heap e ≡ some t) where
  abbrev armed_at : Timers
  armed_at = write s' e (record t { next = due_at clock i })

  start0-head :
      ltb (due_at clock i) (of_timespec s'.next_ts) ≡ true
      → start0 s clock e i true
        ≡ ok (record armed_at { list = e ∷ s'.list; next_ts = to_timespec (due_at clock i) })
  unfolding start0
  start0-head first =
      rw (stopped, start0, load-some s'.heap e t here, first)
        (next_update-some (record armed_at { list = e ∷ s'.list }) clock e
          (record t { next = due_at clock i })
          (get_or-set_self s'.heap e _ none (get_or-bound s'.heap e t here)))

  pub start0-sorted :
      (update : _) (l : List ℕ)
      → ltb (due_at clock i) (of_timespec s'.next_ts) ≡ false
      → insert_sorted armed_at.heap (due_at clock i) e s'.list ≡ ok l
      → start0 s clock e i update ≡ ok (record armed_at { list = l })
  unfolding start0
  start0-sorted update l later run =
      rw (stopped, start0, load-some s'.heap e t here, later, run) refl

-- where the sorted insertion puts a timer that was not armed
pub placed :
    (s : Timers) (e n : ℕ) (t : Timer)
    → IsTimers s
    → cell s.heap e ≡ some t
    → t.next ≡ 0
    → ((x : ℕ) → x ≢ e → 0 < next_of s.heap x → IsNear n (next_of s.heap x))
    → (front : List ℕ) × (back : List ℕ) × (s.list ≡ front ++ back)
      × (insert_sorted (set s.heap e (some (record t { next = n }))) n e s.list
          ≡ ok (front ++ e ∷ back))
      × All (λ x. next_of s.heap x ≤ n) front
      × All (λ x. n ≤ next_of s.heap x) back
placed s e n t v here idle near =
    let heap' : Heap = set s.heap e (some (record t { next = n })) in
    let zero_here = ap next_in here ∙ idle in
    let apart =
      All-imp (λ x. 0 < next_of s.heap x) (λ x. x ≢ e) s.list
        (λ x k p. let z = ap (next_of s.heap) p in omega (arith, z, k, zero_here)) v.armed in
    let same =
      All-imp (λ x. x ≢ e) (λ x. next_of heap' x ≡ next_of s.heap x) s.list
        (λ x k. next_of-set_ne s.heap e x _ k) apart in
    let (front, back, split, run, before, after) =
      insert_sorted-split heap' n e s.list
        (All-imp (λ x. (next_of heap' x ≡ next_of s.heap x) × (0 < next_of s.heap x))
          (λ x. 0 < next_of heap' x) s.list (λ x k. omega (arith, k))
          (All-both _ _ s.list same v.armed))
        (All-imp (λ x. (x ≢ e) × (0 < next_of s.heap x)) (λ x. IsNear n (next_of heap' x)) s.list
          (λ x k. subst (IsNear n) (sym (next_of-set_ne s.heap e x _ k.0)) (near x k.0 k.1))
          (All-both _ _ s.list apart v.armed))
        (IsAscending-ext s.heap heap' s.list same v.ordered) in
    let same' = subst (All (λ x. next_of heap' x ≡ next_of s.heap x)) split same in
    (
      front,
      back,
      split,
      run,
      All-imp (λ x. (next_of heap' x ≡ next_of s.heap x) × (next_of heap' x < n))
          (λ x. next_of s.heap x ≤ n) front (λ x k. omega (arith, k))
          (All-both _ _ front (All-append_left _ front back same') before),
      All-imp (λ x. (next_of heap' x ≡ next_of s.heap x) × (n ≤ next_of heap' x))
          (λ x. n ≤ next_of s.heap x) back (λ x k. omega (arith, k))
          (All-both _ _ back (All-append_right _ front back same') after),
    )

-- the second half of rd_timer_start0, from a timer that is not armed
arm :
    (s s' : Timers) (clock e i : ℕ) (t : Timer)
    → stop0 s clock e ≡ ok s'
    → IsTimers s'
    → cell s'.heap e ≡ some t
    → t.next ≡ 0
    → 0 < due_at clock i
    → ((x : ℕ) → x ≢ e → 0 < next_of s'.heap x → IsNear (due_at clock i) (next_of s'.heap x))
    → (l : List ℕ) × (ts : Timespec) × (start0 s clock e i true
        ≡ ok (record (write s' e (record t { next = due_at clock i })) { list = l; next_ts = ts }))
      × IsTimers
          (record (write s' e (record t { next = due_at clock i })) { list = l; next_ts = ts })
arm s s' clock e i t stopped v here idle soon near =
    let n = due_at clock i in
    elim (Bool-cases (ltb n (of_timespec s'.next_ts))) [
      | inl first ↦
          let lt : n < of_timespec s'.next_ts = ground (arith, first) in
          let back = of_timespec-to_timespec n in
          let late =
            All-imp _ (λ x. n ≤ next_of s'.heap x) s'.list (λ x k. omega (arith, lt, k)) v.early in
          (
            e ∷ s'.list,
            to_timespec n,
            start0-head s s' clock e i t stopped here first,
            linked-IsTimers s' e n t [] s'.list (to_timespec n) v here idle soon refl tt late
                (omega (arith, back))
                (All-imp _ (λ x. of_timespec (to_timespec n) ≤ next_of s'.heap x) s'.list
                  (λ x k. omega (arith, back, lt, k)) v.early),
          )
      | inr later ↦
          let ge : of_timespec s'.next_ts ≤ n = ground (arith, later) in
          let (front, back, split, run, before, after) = placed s' e n t v here idle near in
          (
            front ++ e ∷ back,
            s'.next_ts,
            start0-sorted s s' clock e i t stopped here true (front ++ e ∷ back) later run,
            linked-IsTimers s' e n t front back s'.next_ts v here idle soon split before after ge
                v.early,
          )
    ]

start-start0 :
    (s : Timers) (clock e i : ℕ) (t : Timer)
    → cell s.heap e ≡ some t
    → start s clock e i ≡ start0 (write s e (record t { interval = i })) clock e i true
unfolding start
start-start0 s clock e i t here = rw (load-some s.heap e t here, start) refl

-- rd_timer_start of a live timer, armed or not, keeps the list in order, when the new time is less
-- than 2 ^ 31 microseconds from the times of the other timers and is not 0. The timer is then due at
-- that time, and every other timer is as it was.
pub start-IsTimers :
    (s : Timers) (clock e i : ℕ) (t : Timer)
    → IsTimers s
    → cell s.heap e ≡ some t
    → 0 < due_at clock i
    → ((x : ℕ) → x ≢ e → 0 < next_of s.heap x → IsNear (due_at clock i) (next_of s.heap x))
    → (s' : Timers) × (start s clock e i ≡ ok s')
      × IsTimers s'
      × (cell s'.heap e ≡ some (record t { interval = i; next = due_at clock i }))
      × ((x : ℕ) → x ≢ e → cell s'.heap x ≡ cell s.heap x)
start-IsTimers s clock e i t v here soon near =
    let t1 = record t { interval = i } in
    let s1 = write s e t1 in
    let here1 = get_or-set_self s.heap e (some t1) none (get_or-bound s.heap e t here) in
    let old : (x : ℕ) → x ≢ e → cell s1.heap x ≡ cell s.heap x =
      λ x a. get_or-set_ne s.heap e x (some t1) none (λ p. a (sym p)) in
    let v1 : IsTimers s1 =
      IsTimers-ext s s1.heap
        (λ x. elim (Bool-cases (x == e)) [
          | inl eq ↦
              let p = (==_iff x e).0 eq in
              ap (next_of s1.heap) p
              ∙ ap next_in here1
              ∙ sym (ap next_in here)
              ∙ ap (next_of s.heap) (sym p)
          | inr ne ↦ ap next_in (old x (λ p. not-==→ne x e ne p))
        ])
        v in
    let (s2, run, v2, here2, same, _) = stop0-IsTimers s1 clock e t1 v1 here1 in
    let (l, ts, run', v') =
      arm s1 s2 clock e i (record t1 { next = 0 }) run v2 here2 refl soon
        (λ x a k.
          let q = same x a ∙ old x a in
          let o = ap next_in q in
          subst (λ c. IsNear (due_at clock i) (next_in c)) (sym q)
            (near x a (omega (arith, o, k)))) in
    let new = some (record t1 { next = due_at clock i }) in
    (
      record (write s2 e (record t1 { next = due_at clock i })) { list = l; next_ts = ts },
      start-start0 s clock e i t here ∙ run',
      v',
      get_or-set_self s2.heap e new none (get_or-bound s2.heap e _ here2),
      λ x a. get_or-set_ne s2.heap e x new none (λ p. a (sym p)) ∙ same x a ∙ old x a,
    )
