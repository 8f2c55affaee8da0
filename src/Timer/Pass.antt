-- ===== src/Timer/Pass.antt =====
-- One pass of rd_timers_run: what is due is taken, and what recurs is armed again.
use mathlib.Core.Path.{subst}
use librd.Common.{
  All-of_In, ℕ, ◌+◌, ◌*◌, ◌%◌, ◌^◌, ◌<◌, ◌≤◌, ◌≡◌, ◌≢◌, refl, ap, sym, ◌∙◌, arith, inl, inr, Option,
  none, some, List, [], ◌∷◌, ◌++◌, All, All-append_left, All-append_right, All-imp, All-both, In,
  In-cases, In-append, All-In, IsDistinct, IsDistinct-append_left, IsDistinct-append_right,
}
use librd.Common.Run.{ok}
use librd.Timer.{Timer, Timers, cell, of_timespec, expire, restart, next_update, first_of, run_pass}
use librd.Timer.Order.{
  next_in, next_of, IsAscending, IsTimers, armed_cell, IsAscending-ext, IsAscending-append_right,
}
use librd.Timer.Arm.{next_update-first}
use librd.Timer.Fire.{fired, IsFired, expire-takes_due}
use librd.Timer.Restart.{restarted, IsWithin, IsRestartable, restart-IsRestarted}

fired_next : (c : Option Timer) → next_in (fired c) ≡ 0
fired_next none = refl
fired_next (some t) = refl

-- the list between the two loops
IsFired-IsTimers :
    (s : Timers) (now : ℕ) (due : List ℕ) (s' : Timers)
    → IsTimers s
    → IsFired s now s.list due s'
    → IsTimers s'
IsFired-IsTimers s now due s' v f =
    let next : ℕ → ℕ = next_of s.heap in
    let apart : (x : ℕ) → 0 < next_of s'.heap x → All (λ y. y ≢ x) due = λ x h.
      elim (In-cases x due) [
        | inl m ↦
            let z = ap next_in (All-In _ due x f.counted m) ∙ fired_next (cell s.heap x) in
            absurd (omega (arith, z, h))
        | inr a ↦ a
      ] in
    let distinct = subst IsDistinct f.split v.distinct in
    let same =
      All-of_In (λ x. next_of s'.heap x ≡ next x) s'.list
        (λ x m. ap next_in (f.same x (apart_right due s'.list x distinct m))) in
    record {
      armed =
          All-imp (λ x. (next_of s'.heap x ≡ next x) × (now < next x)) (λ x. 0 < next_of s'.heap x)
            s'.list (λ x k. omega (arith, k)) (All-both _ _ s'.list same f.later);
      linked = λ x h.
          let a = apart x h in
          let o = ap next_in (f.same x a) in
          elim (In-append x due s'.list (subst (In x) f.split (v.linked x (omega (arith, o, h))))) [
            | inl m ↦ absurd (All-In (λ y. y ≢ x) due x a m refl)
            | inr m ↦ m
          ];
      ordered = IsAscending-ext s.heap s'.heap s'.list same (
          IsAscending-append_right s.heap due s'.list
            (subst (IsAscending s.heap) f.split v.ordered));
      distinct = IsDistinct-append_right due s'.list distinct;
      early =
          let kept = ap of_timespec f.kept in
          All-imp (λ x. (next_of s'.heap x ≡ next x) × (of_timespec s.next_ts ≤ next x))
            (λ x. of_timespec s'.next_ts ≤ next_of s'.heap x) s'.list
            (λ x k. omega (arith, kept, k))
            (All-both _ _ s'.list same (
              All-append_right _ due s'.list
                (subst (All (λ x. of_timespec s.next_ts ≤ next x)) f.split v.early)));
    }
  where
    apart_right : (q r : List ℕ) (x : ℕ) → IsDistinct (q ++ r) → In x r → All (λ y. y ≢ x) q
    apart_right [] r x d m = tt
    apart_right (y ∷ q) r x d m = (
      (λ p. All-In (λ z. z ≢ y) r x (All-append_right _ q r d.0) m (sym p)),
      apart_right q r x d.1 m,
    )

run_pass-ok :
    (s : Timers) (now : ℕ) (clock : ℕ → ℕ) (later : ℕ) (due : List ℕ) (s1 s2 : Timers)
    → expire s.list now s [] ≡ ok (s1, due)
    → restart due clock s1 ≡ ok s2
    → run_pass s now clock later ≡ next_update s2 later (first_of s2.list)
unfolding run_pass
run_pass-ok s now clock later due s1 s2 taken again = rw (taken, again) refl

-- each timer that was taken can be armed again
taken-IsRestartable :
    (s : Timers) (now : ℕ) (clock : ℕ → ℕ) (due : List ℕ) (s' : Timers)
    → IsTimers s
    → ((x : ℕ) → now ≤ clock x)
    → now + 2 ^ 31 ≤ 2 ^ 64
    → ((x : ℕ) (t : Timer)
        → cell s.heap x ≡ some t
        → clock x + t.interval * 1000 % 2 ^ 32 < now + 2 ^ 31)
    → IsFired s now s.list due s'
    → All (IsRestartable s' now clock) due
taken-IsRestartable s now clock due s' v order fits soon f =
    let kept = ap of_timespec f.kept in
    All-imp
      (λ x.
        (cell s'.heap x ≡ fired (cell s.heap x))
        × ((next_of s.heap x ≤ now)
            × ((0 < next_of s.heap x) × (of_timespec s.next_ts ≤ next_of s.heap x))))
      (IsRestartable s' now clock) due
      (λ x k.
        let (here', rest) = k in
        let (past, more) = rest in
        let (armed, early) = more in
        let (t, here) = armed_cell (cell s.heap x) armed in
        let bound = soon x t here in
        let read = order x in
        (
          record t { next = 0; called = t.called + 1 },
          here' ∙ ap fired here,
          refl,
          omega (arith, bound, read, fits, past, armed),
          omega (arith, bound, read, fits, kept, past, early),
          (omega (arith, bound, read, fits), omega (arith, bound, read, fits)),
        ))
      (All-both _ _ due f.counted (
        All-both _ _ due f.past (
          All-both _ _ due
            (All-append_left _ due s'.list
              (subst (All (λ x. 0 < next_of s.heap x)) f.split v.armed))
            (All-append_left _ due s'.list
              (subst (All (λ x. of_timespec s.next_ts ≤ next_of s.heap x)) f.split v.early)))))

-- One pass of rd_timers_run, at `now`, takes every timer that is due then and no other, adds one
-- event for each, in the order of the list, arms the recurring ones of them again, each for what the
-- clock is when it is started, and leaves the other timers as they were and the list in order. Each
-- such reading `clock x` is not before `now`, and all times, the new ones too, are less than 2 ^ 31
-- microseconds after `now`.
pub run_pass-fires_due :
    (s : Timers) (now : ℕ) (clock : ℕ → ℕ) (later : ℕ)
    → IsTimers s
    → ((x : ℕ) → now ≤ clock x)
    → now + 2 ^ 31 ≤ 2 ^ 64
    → ((x : ℕ) (t : Timer)
        → cell s.heap x ≡ some t
        → clock x + t.interval * 1000 % 2 ^ 32 < now + 2 ^ 31)
    → ((x : ℕ) → next_of s.heap x < now + 2 ^ 31)
    → (due : List ℕ) × (s' : Timers) × (run_pass s now clock later ≡ ok s')
      × ((rest : List ℕ) × (s.list ≡ due ++ rest))
      × IsTimers s'
      × (s'.events ≡ s.events ++ due)
      × All (λ x. (0 < next_of s.heap x) × (next_of s.heap x ≤ now)) due
      × ((x : ℕ) → 0 < next_of s.heap x → next_of s.heap x ≤ now → In x due)
      × All (λ x. cell s'.heap x ≡ restarted (clock x) (fired (cell s.heap x))) due
      × ((x : ℕ) → All (λ y. y ≢ x) due → cell s'.heap x ≡ cell s.heap x)
run_pass-fires_due s now clock later v order fits soon horizon =
    let (due, s1, taken, f) = expire-takes_due s now v in
    let v1 = IsFired-IsTimers s now due s1 v f in
    let distinct = IsDistinct-append_left due s1.list (subst IsDistinct f.split v.distinct) in
    let (s2, again, r) =
      restart-IsRestarted due now clock s1 v1 distinct
        (taken-IsRestartable s now clock due s1 v order fits soon f) (λ x h. within s1 f x h) in
    let (ts, update, early) = next_update-first s2 later s2.list r.valid.armed r.valid.ordered in
    (
      due,
      record s2 { next_ts = ts },
      run_pass-ok s now clock later due s1 s2 taken again ∙ update,
      (s1.list, f.split),
      record {
        armed = r.valid.armed;
        linked = r.valid.linked;
        ordered = r.valid.ordered;
        distinct = r.valid.distinct;
        early = early;
      },
      r.events ∙ f.events,
      All-both _ _ due
          (All-append_left _ due s1.list (subst (All (λ x. 0 < next_of s.heap x)) f.split v.armed))
          f.past,
      λ x armed past. elim (In-append x due s1.list (subst (In x) f.split (v.linked x armed))) [
        | inl m ↦ m
        | inr m ↦ let late = All-In _ s1.list x f.later m in absurd (omega (arith, late, past))
      ],
      All-imp
          (λ x.
            (cell s2.heap x ≡ restarted (clock x) (cell s1.heap x))
            × (cell s1.heap x ≡ fired (cell s.heap x)))
          (λ x. cell s2.heap x ≡ restarted (clock x) (fired (cell s.heap x))) due
          (λ x k. k.0 ∙ ap (restarted (clock x)) k.1) (All-both _ _ due r.armed f.counted),
      λ x a. r.same x a ∙ f.same x a,
    )
  where
    within :
        (s1 : Timers) {due : List ℕ} (f : IsFired s now s.list due s1) (x : ℕ)
        → 0 < next_of s1.heap x
        → IsWithin now (next_of s1.heap x)
    within s1 {due = due} f x h = elim (In-cases x due) [
      | inl m ↦
          let z = ap next_in (All-In _ due x f.counted m) ∙ fired_next (cell s.heap x) in
          absurd (omega (arith, z, h))
      | inr a ↦
          let o = ap next_in (f.same x a) in
          let h' : 0 < next_of s.heap x = omega (arith, o, h) in
          elim (In-append x due s1.list (subst (In x) f.split (v.linked x h'))) [
            | inl m ↦ absurd (All-In (λ y. y ≢ x) due x a m refl)
            | inr m ↦
                let late = All-In _ s1.list x f.later m in
                (omega (arith, late, o), omega (arith, o, horizon x))
          ]
    ]
