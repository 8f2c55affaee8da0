-- ===== src/Timer/Fire.antt =====
-- The first loop of rd_timers_run: which timers an expiry takes, and what it leaves.
use mathlib.Core.Path.{subst}
use librd.Common.{
  ℕ, ◌+◌, ◌<◌, ◌≤◌, ◌≡◌, ◌≢◌, refl, ap, sym, ◌∙◌, arith, true, false, inl, inr, Option, none, some,
  List, [], ◌∷◌, ◌++◌, All, All-append_left, All-append_right, All-imp, All-both, leb, Bool-cases,
  get_or-set_self, get_or-set_ne, get_or-bound, set, IsDistinct,
}
use librd.Common.Run.{ok}
use librd.Timer.{Timer, Timers, Heap, cell, write, expire}
use librd.Timer.Order.{
  next_in, next_of, IsAscending, IsTimers, armed_cell, next_of-set_ne, IsAscending-ext,
}
use librd.Timer.Arm.{load-some}

-- a timer whose event was added: it is not armed, and one more call is pending
abbrev pub fired : Option Timer → Option Timer
fired none = none
fired (some t) = some (record t { next = 0; called = t.called + 1 })

-- `due`, of the list `l`, was taken, and the state is `s'` where it was `s`.
pub record IsFired (s : Timers) (now : ℕ) (l due : List ℕ) (s' : Timers) : Type 0 where
  pub split : l ≡ due ++ s'.list
  pub events : s'.events ≡ s.events ++ due
  pub past : All (λ x. next_of s.heap x ≤ now) due
  pub later : All (λ x. now < next_of s.heap x) s'.list
  pub counted : All (λ x. cell s'.heap x ≡ fired (cell s.heap x)) due
  pub same : (x : ℕ) → All (λ y. y ≢ x) due → cell s'.heap x ≡ cell s.heap x
  pub kept : s'.next_ts ≡ s.next_ts

append_assoc : (a : List ℕ) (e : ℕ) (b : List ℕ) → (a ++ e ∷ []) ++ b ≡ a ++ e ∷ b
append_assoc [] e b = refl
append_assoc (x ∷ a) e b = ap (λ r. x ∷ r) (append_assoc a e b)

append_nil : (a : List ℕ) → a ++ [] ≡ a
append_nil [] = refl
append_nil (x ∷ a) = ap (λ r. x ∷ r) (append_nil a)

-- the state after the event of the first timer, `e`, was added
abbrev fire : Timers → ℕ → Timer → List ℕ → Timers
fire s e t rest =
    write (record s { list = rest; events = s.events ++ e ∷ [] }) e
      (record t { next = 0; called = t.called + 1 })

expire-due :
    (e : ℕ) (rest : List ℕ) (now : ℕ) (s : Timers) (t : Timer) (cs : List ℕ)
    → cell s.heap e ≡ some t
    → leb t.next now ≡ true
    → expire (e ∷ rest) now s cs ≡ expire rest now (fire s e t rest) (cs ++ e ∷ [])
unfolding expire
expire-due e rest now s t cs here due = rw (load-some s.heap e t here, expire, due) refl

expire-early :
    (e : ℕ) (rest : List ℕ) (now : ℕ) (s : Timers) (t : Timer) (cs : List ℕ)
    → cell s.heap e ≡ some t
    → leb t.next now ≡ false
    → expire (e ∷ rest) now s cs ≡ ok (s, cs)
unfolding expire
expire-early e rest now s t cs here early = rw (load-some s.heap e t here, expire, early) refl

expire-nil : (now : ℕ) (s : Timers) (cs : List ℕ) → expire [] now s cs ≡ ok (s, cs)
unfolding expire
expire-nil now s cs = refl

-- no timer is taken
IsFired-none :
    (s : Timers) (now : ℕ) (l : List ℕ)
    → s.list ≡ l
    → All (λ x. now < next_of s.heap x) s.list
    → IsFired s now l [] s
IsFired-none s now l here late = record {
  split = sym here;
  events = sym (append_nil s.events);
  past = tt;
  later = late;
  counted = tt;
  same = λ x a. refl;
  kept = refl;
}

-- one timer more is taken
IsFired-cons :
    (s : Timers) (now e : ℕ) (t : Timer) (rest due : List ℕ) (s' : Timers)
    → cell s.heap e ≡ some t
    → t.next ≤ now
    → All (λ x. x ≢ e) rest
    → IsFired (fire s e t rest) now rest due s'
    → IsFired s now (e ∷ rest) (e ∷ due) s'
IsFired-cons s now e t rest due s' here past others f =
    let fired_one = some (record t { next = 0; called = t.called + 1 }) in
    let heap' : Heap = set s.heap e fired_one in
    let all = subst (All (λ x. x ≢ e)) f.split others in
    let here' = All-append_left (λ x. x ≢ e) due s'.list all in
    let left = All-append_right (λ x. x ≢ e) due s'.list all in
    let when = ap next_in here in
    let old : (x : ℕ) → x ≢ e → cell heap' x ≡ cell s.heap x =
      λ x a. get_or-set_ne s.heap e x fired_one none (λ p. a (sym p)) in
    record {
      split = ap (λ r. e ∷ r) f.split;
      events = f.events ∙ append_assoc s.events e due;
      past = (
        omega (arith, when, past),
        All-imp (λ x. (x ≢ e) × (next_of heap' x ≤ now)) (λ x. next_of s.heap x ≤ now) due
            (λ x k. let o = ap next_in (old x k.0) in omega (arith, o, k.1))
            (All-both _ _ due here' f.past),
      );
      later =
          All-imp (λ x. (x ≢ e) × (now < next_of heap' x)) (λ x. now < next_of s.heap x) s'.list
            (λ x k. let o = ap next_in (old x k.0) in omega (arith, o, k.1))
            (All-both _ _ s'.list left f.later);
      counted = (
        f.same e here'
            ∙ get_or-set_self s.heap e fired_one none (get_or-bound s.heap e t here)
            ∙ sym (ap fired here),
        All-imp (λ x. (x ≢ e) × (cell s'.heap x ≡ fired (cell heap' x)))
            (λ x. cell s'.heap x ≡ fired (cell s.heap x)) due (λ x k. k.1 ∙ ap fired (old x k.0))
            (All-both _ _ due here' f.counted),
      );
      same = λ x a. f.same x a.1 ∙ old x (λ p. a.0 (sym p));
      kept = f.kept;
    }

expire-IsFired :
    (l : List ℕ) (now : ℕ) (s : Timers) (cs : List ℕ)
    → s.list ≡ l
    → All (λ x. 0 < next_of s.heap x) l
    → IsAscending s.heap l
    → IsDistinct l
    → (due : List ℕ) × (s' : Timers) × (expire l now s cs ≡ ok (s', cs ++ due))
      × IsFired s now l due s'
expire-IsFired [] now s cs eq armed ordered distinct = (
  [],
  s,
  expire-nil now s cs ∙ ap (λ c. ok (s, c)) (sym (append_nil cs)),
  IsFired-none s now [] eq (subst (All (λ x. now < next_of s.heap x)) (sym eq) tt),
)
expire-IsFired (e ∷ rest) now s cs eq armed ordered distinct =
    let (t, here) = armed_cell (cell s.heap e) armed.0 in
    let when = ap next_in here in
    elim (Bool-cases (leb t.next now)) [
      | inl due ↦
          let fired_one = some (record t { next = 0; called = t.called + 1 }) in
          let same =
            All-imp (λ x. x ≢ e) (λ x. next_of (set s.heap e fired_one) x ≡ next_of s.heap x) rest
              (λ x k. next_of-set_ne s.heap e x fired_one k) distinct.0 in
          let (due', s', run, f) =
            expire-IsFired rest now (fire s e t rest) (cs ++ e ∷ []) refl
              (All-imp
                (λ x.
                  (next_of (set s.heap e fired_one) x ≡ next_of s.heap x) × (0 < next_of s.heap x))
                (λ x. 0 < next_of (set s.heap e fired_one) x) rest (λ x k. omega (arith, k))
                (All-both _ _ rest same armed.1))
              (IsAscending-ext s.heap (set s.heap e fired_one) rest same ordered.1) distinct.1 in
          (
            e ∷ due',
            s',
            expire-due e rest now s t cs here due
                ∙ run
                ∙ ap (λ c. ok (s', c)) (append_assoc cs e due'),
            IsFired-cons s now e t rest due' s' here (ground (arith, due)) distinct.0 f,
          )
      | inr early ↦
          let after : now < t.next = ground (arith, early) in
          (
            [],
            s,
            expire-early e rest now s t cs here early ∙ ap (λ c. ok (s, c)) (sym (append_nil cs)),
            IsFired-none s now (e ∷ rest) eq (
                subst (All (λ x. now < next_of s.heap x)) (sym eq) (
                  omega (arith, after, when),
                  All-imp (λ x. next_of s.heap e ≤ next_of s.heap x) (λ x. now < next_of s.heap x)
                      rest (λ x k. omega (arith, after, when, k)) ordered.0,
                )),
          )
    ]

-- When rd_timers_run wakes up, it takes every timer that is due, in the order in which they are due,
-- and none that is not: one event is added for each, the list keeps the others, and the cells of the
-- others are as they were. A timer that was taken is not armed and has one more pending call.
pub expire-takes_due :
    (s : Timers) (now : ℕ)
    → IsTimers s
    → (due : List ℕ) × (s' : Timers) × (expire s.list now s [] ≡ ok (s', due))
      × IsFired s now s.list due s'
expire-takes_due s now v = expire-IsFired s.list now s [] refl v.armed v.ordered v.distinct
