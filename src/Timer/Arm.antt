-- ===== src/Timer/Arm.antt =====
-- rd_timer_stop0 and rd_timer_start0 keep the list in order.
use mathlib.Core.Path.{subst}
use librd.Common.{
  ℕ, ◌+◌, ◌*◌, ◌<◌, ◌≤◌, ◌≡◌, ◌≢◌, refl, ap, sym, ◌∙◌, arith, Bool, true, false, ◌&&◌, inl, inr,
  Option, none, some, List, [], ◌∷◌, ◌++◌, All, All-append, All-append_left, All-append_right,
  All-imp, All-both, ◌==◌, ==_iff, if◌then◌else◌, Bool-cases, set, get_or-set_self, get_or-set_ne,
  get_or-bound, In, IsDistinct, IsDistinct-middle, In-remove,
}
use librd.Common.Run.{ok, fault}
use librd.Timer.{
  Timespec, to_timespec, of_timespec, Timer, Timers, Heap, cell, load, write, next_update, first_of,
  unlink, is_first, stop0,
}
use librd.Timer.Order.{
  next_in, next_of, IsAscending, IsTimers, of_timespec-to_timespec, armed_cell, next_of-set_ne,
  IsAscending-middle, IsAscending-ext, unlink-split,
}

pub load-some : (heap : Heap) (e : ℕ) (t : Timer) → cell heap e ≡ some t → load heap e ≡ ok t
load-some heap e t h = ap (λ c. elim c [ none ↦ fault | some u ↦ ok u ]) h

next_update-none :
    (s : Timers) (clock : ℕ)
    → next_update s clock none ≡ ok (record s { next_ts = to_timespec (clock + 3600 * 1_000_000) })
unfolding next_update
next_update-none s clock = refl

pub next_update-some :
    (s : Timers) (clock y : ℕ) (u : Timer)
    → cell s.heap y ≡ some u
    → next_update s clock (some y) ≡ ok (record s { next_ts = to_timespec u.next })
unfolding next_update
next_update-some s clock y u h = rw (load-some s.heap y u h, next_update) refl

-- rd_timers_next_update at the first of the timers that are left, if there is one
pub next_update-first :
    (s : Timers) (clock : ℕ) (back : List ℕ)
    → All (λ x. 0 < next_of s.heap x) back
    → IsAscending s.heap back
    → (ts : Timespec) × (next_update s clock (first_of back) ≡ ok (record s { next_ts = ts }))
      × All (λ x. of_timespec ts ≤ next_of s.heap x) back
next_update-first s clock [] a o =
    (to_timespec (clock + 3600 * 1_000_000), next_update-none s clock, tt)
next_update-first s clock (y ∷ b) a o =
    let (u, live) = armed_cell (cell s.heap y) a.0 in
    let due = ap next_in live in
    let back_again = of_timespec-to_timespec u.next in
    (
      to_timespec u.next,
      next_update-some s clock y u live,
      (
        omega (arith, due, back_again),
        All-imp (λ x. next_of s.heap y ≤ next_of s.heap x)
            (λ x. of_timespec (to_timespec u.next) ≤ next_of s.heap x) b
            (λ x k. omega (arith, due, back_again, k)) o.0,
      ),
    )

module _ (s : Timers) (clock : ℕ) (front back : List ℕ)
    (armed : All (λ x. 0 < next_of s.heap x) (front ++ back))
    (ordered : IsAscending s.heap (front ++ back))
    (early : All (λ x. of_timespec s.next_ts ≤ next_of s.heap x) (front ++ back)) where
  -- `rd_timers_next_ts` after a removal is no later than any timer that is left
  updated :
      (b : Bool)
      → (b ≡ true → front ≡ [])
      → (ts : Timespec) × ((if b then next_update s clock (first_of back) else ok s)
          ≡ ok (record s { next_ts = ts }))
        × All (λ x. of_timespec ts ≤ next_of s.heap x) (front ++ back)
  updated false h = (s.next_ts, refl, early)
  updated true h =
      let whole = ap (λ f. f ++ back) (h refl) in
      let (ts, run, a) =
        next_update-first s clock back (subst (All (λ x. 0 < next_of s.heap x)) whole armed)
          (subst (IsAscending s.heap) whole ordered) in
      (ts, run, subst (All (λ x. of_timespec ts ≤ next_of s.heap x)) (sym whole) a)

is_first-front :
    (e : ℕ) (front : List ℕ)
    → All (λ x. x ≢ e) front
    → is_first e (front ++ e ∷ []) ≡ true
    → front ≡ []
is_first-front e [] a h = refl
is_first-front e (x ∷ front) a h = absurd (a.0 ((==_iff x e).0 h))

-- the list after the removal of a timer, whose time is 0
removed-IsTimers :
    (s : Timers) (e : ℕ) (front back : List ℕ) (t : Timer) (ts : Timespec)
    → IsTimers s
    → s.list ≡ front ++ e ∷ back
    → cell s.heap e ≡ some t
    → All (λ x. of_timespec ts ≤ next_of s.heap x) (front ++ back)
    → IsTimers (write (record s { list = front ++ back; next_ts = ts }) e (record t { next = 0 }))
removed-IsTimers s e front back t ts v split here early =
    let heap' : Heap = set s.heap e (some (record t { next = 0 })) in
    let middle = IsDistinct-middle front back e (subst IsDistinct split v.distinct) in
    let self : next_of heap' e ≡ 0 = ap next_in (
      get_or-set_self s.heap e (some (record t { next = 0 })) none
        (get_or-bound s.heap e t here)) in
    let same =
      All-imp (λ x. x ≢ e) (λ x. next_of heap' x ≡ next_of s.heap x) (front ++ back)
        (λ x k. next_of-set_ne s.heap e x _ k) middle.1 in
    let A : ℕ → Type 0 = λ x. 0 < next_of s.heap x in
    let armed = subst (All A) split v.armed in
    let left =
      All-append A front back (All-append_left A front (e ∷ back) armed)
        (All-append_right A front (e ∷ back) armed).1 in
    record {
      armed =
          All-imp (λ x. (next_of heap' x ≡ next_of s.heap x) × (0 < next_of s.heap x))
            (λ x. 0 < next_of heap' x) (front ++ back) (λ x k. omega (arith, k))
            (All-both _ _ _ same left);
      linked = λ x h.
          let apart : x ≢ e = λ p. let z = ap (next_of heap') p in omega (arith, z, self, h) in
          let old = next_of-set_ne s.heap e x (some (record t { next = 0 })) apart in
          In-remove front back e x apart (subst (In x) split (v.linked x (omega (arith, old, h))));
      ordered =
          IsAscending-ext s.heap heap' (front ++ back) same
            (IsAscending-middle s.heap front back e (subst (IsAscending s.heap) split v.ordered));
      distinct = middle.0;
      early =
          All-imp (λ x. (next_of heap' x ≡ next_of s.heap x) × (of_timespec ts ≤ next_of s.heap x))
            (λ x. of_timespec ts ≤ next_of heap' x) (front ++ back) (λ x k. omega (arith, k))
            (All-both _ _ _ same early);
    }

and_right : (a b : Bool) → (a && b) ≡ true → b ≡ true
and_right true b h = h
and_right false b h = ground (arith, h)

stop0-removed :
    (s : Timers) (clock e : ℕ) (t : Timer) (l : List ℕ) (after : Option ℕ) (ts : Timespec)
    → cell s.heap e ≡ some t
    → (t.next == 0) ≡ false
    → unlink e s.list ≡ ok (l, after)
    → (if (t.called == 0) && is_first e s.list then next_update s clock after else ok s)
      ≡ ok (record s { next_ts = ts })
    → stop0 s clock e ≡ ok (write (record s { list = l; next_ts = ts }) e (record t { next = 0 }))
unfolding stop0
stop0-removed s clock e t l after ts here armed run update =
    rw (load-some s.heap e t here, stop0, armed, run, update) refl

pub stop0-idle :
    (s : Timers) (clock e : ℕ) (t : Timer)
    → cell s.heap e ≡ some t
    → (t.next == 0) ≡ true
    → stop0 s clock e ≡ ok s
unfolding stop0
stop0-idle s clock e t here idle = rw (load-some s.heap e t here, stop0, idle) refl

-- rd_timer_stop0 of a live timer keeps the list in order. The timer is not armed afterwards, and every
-- other timer is as it was.
pub stop0-IsTimers :
    (s : Timers) (clock e : ℕ) (t : Timer)
    → IsTimers s
    → cell s.heap e ≡ some t
    → (s' : Timers) × (stop0 s clock e ≡ ok s')
      × IsTimers s'
      × (cell s'.heap e ≡ some (record t { next = 0 }))
      × ((x : ℕ) → x ≢ e → cell s'.heap x ≡ cell s.heap x)
      × (s'.events ≡ s.events)
stop0-IsTimers s clock e t v here = elim (Bool-cases (t.next == 0)) [
  | inl idle ↦
      let z = (==_iff t.next 0).0 idle in
      (
        s,
        stop0-idle s clock e t here idle,
        v,
        here ∙ (λ i. some (record t { next = z i })),
        λ x a. refl,
        refl,
      )
  | inr armed ↦
      let due : next_of s.heap e ≡ t.next = ap next_in here in
      let (front, back, split, run, first) =
        unlink-split e s.list (v.linked e (ground (arith, due, armed))) v.distinct in
      let middle = IsDistinct-middle front back e (subst IsDistinct split v.distinct) in
      let A : ℕ → Type 0 = λ x. 0 < next_of s.heap x in
      let a = subst (All A) split v.armed in
      let E : ℕ → Type 0 = λ x. of_timespec s.next_ts ≤ next_of s.heap x in
      let b = subst (All E) split v.early in
      let (ts, update, early) =
        updated s clock front back
          (All-append A front back (All-append_left A front (e ∷ back) a)
            (All-append_right A front (e ∷ back) a).1)
          (IsAscending-middle s.heap front back e (subst (IsAscending s.heap) split v.ordered))
          (All-append E front back (All-append_left E front (e ∷ back) b)
            (All-append_right E front (e ∷ back) b).1)
          ((t.called == 0) && is_first e s.list)
          (λ q.
            is_first-front e front (All-append_left (λ x. x ≢ e) front back middle.1)
              (sym first ∙ and_right (t.called == 0) (is_first e s.list) q)) in
      (
        write (record s { list = front ++ back; next_ts = ts }) e (record t { next = 0 }),
        stop0-removed s clock e t (front ++ back) (first_of back) ts here armed run update,
        removed-IsTimers s e front back t ts v split here early,
        get_or-set_self s.heap e (some (record t { next = 0 })) none (get_or-bound s.heap e t here),
        λ x a. get_or-set_ne s.heap e x (some (record t { next = 0 })) none (λ p. a (sym p)),
        refl,
      )
]
