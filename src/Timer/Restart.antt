-- ===== src/Timer/Restart.antt =====
-- The second loop of rd_timers_run: the recurring timers that were taken are armed again.
use mathlib.Core.Path.{subst}
use librd.Common.{
  ℕ, ◌+◌, ◌^◌, ◌<◌, ◌≤◌, ◌≡◌, ◌≢◌, refl, ap, sym, ◌∙◌, arith, true, false, inl, inr, Option, none,
  some, List, [], ◌∷◌, ◌++◌, All, All-imp, All-both, Bool-cases, get_or-set_self, get_or-set_ne,
  get_or-bound, IsDistinct, ◌==◌, ==_iff, not-==→ne, if◌then◌else◌, le→not-ltb,
}
use librd.Common.Run.{ok}
use librd.Timer.{Timer, Timers, cell, write, of_timespec, start0, restart}
use librd.Timer.Order.{next_in, next_of, IsTimers}
use librd.Timer.Arm.{load-some, stop0-idle}
use librd.Timer.Insert.{IsNear}
use librd.Timer.Start.{due_at, placed, start0-sorted}
use librd.Timer.Link.{linked-IsTimers}

-- a timer that was taken, after the loop
abbrev pub restarted : ℕ → Option Timer → Option Timer
restarted clock none = none
restarted clock (some t) = some (if t.once then t else record t { next = due_at clock t.interval })

-- The times fit in a window of 2 ^ 31 microseconds.
abbrev pub IsWithin : ℕ → ℕ → Type 0
IsWithin lo a = (lo ≤ a) × (a < lo + 2 ^ 31)

IsNear-within : (lo a b : ℕ) → IsWithin lo a → IsWithin lo b → IsNear a b
IsNear-within lo a b h k = (omega (arith, h, k), omega (arith, h, k))

-- rd_timer_start0 of a timer that is not armed, and due after `rd_timers_next_ts`
start0-unarmed :
    (s : Timers) (clock e i : ℕ) (t : Timer)
    → IsTimers s
    → cell s.heap e ≡ some t
    → t.next ≡ 0
    → 0 < due_at clock i
    → of_timespec s.next_ts ≤ due_at clock i
    → ((x : ℕ) → x ≢ e → 0 < next_of s.heap x → IsNear (due_at clock i) (next_of s.heap x))
    → (l : List ℕ) × (start0 s clock e i false
        ≡ ok (record (write s e (record t { next = due_at clock i })) { list = l }))
      × IsTimers (record (write s e (record t { next = due_at clock i })) { list = l })
start0-unarmed s clock e i t v here idle soon late near =
    let n = due_at clock i in
    let (front, back, split, run, before, after) = placed s e n t v here idle near in
    (
      front ++ e ∷ back,
      start0-sorted s s clock e i t (stop0-idle s clock e t here ((==_iff t.next 0).1 idle)) here
          false (front ++ e ∷ back) (le→not-ltb n (of_timespec s.next_ts) late) run,
      linked-IsTimers s e n t front back s.next_ts v here idle soon split before after late v.early,
    )

restart-nil : (clock : ℕ → ℕ) (s : Timers) → restart [] clock s ≡ ok s
unfolding restart
restart-nil clock s = refl

restart-once :
    (clock : ℕ → ℕ) (e : ℕ) (es : List ℕ) (s : Timers) (t : Timer)
    → cell s.heap e ≡ some t
    → t.once ≡ true
    → restart (e ∷ es) clock s ≡ restart es clock s
unfolding restart
restart-once clock e es s t here once = rw (load-some s.heap e t here, restart, once) refl

restart-recurring :
    (clock : ℕ → ℕ) (e : ℕ) (es : List ℕ) (s s' : Timers) (t : Timer)
    → cell s.heap e ≡ some t
    → t.once ≡ false
    → start0 s (clock e) e t.interval false ≡ ok s'
    → restart (e ∷ es) clock s ≡ restart es clock s'
unfolding restart
restart-recurring clock e es s s' t here recurs run =
    rw (load-some s.heap e t here, restart, recurs, run) refl

-- what the loop leaves
pub record IsRestarted (s : Timers) (lo : ℕ) (clock : ℕ → ℕ) (es : List ℕ) (s' : Timers)
    : Type 0 where
  pub valid : IsTimers s'
  pub within : (x : ℕ) → 0 < next_of s'.heap x → IsWithin lo (next_of s'.heap x)
  pub armed : All (λ x. cell s'.heap x ≡ restarted (clock x) (cell s.heap x)) es
  pub same : (x : ℕ) → All (λ y. y ≢ x) es → cell s'.heap x ≡ cell s.heap x
  pub events : s'.events ≡ s.events

-- the first timer needs no new time, or has one
IsRestarted-cons :
    (s s1 s' : Timers) (lo : ℕ) (clock : ℕ → ℕ) (e : ℕ) (es : List ℕ)
    → All (λ x. x ≢ e) es
    → cell s1.heap e ≡ restarted (clock e) (cell s.heap e)
    → ((x : ℕ) → x ≢ e → cell s1.heap x ≡ cell s.heap x)
    → s1.events ≡ s.events
    → IsRestarted s1 lo clock es s'
    → IsRestarted s lo clock (e ∷ es) s'
IsRestarted-cons s s1 s' lo clock e es others self old events r = record {
  valid = r.valid;
  within = r.within;
  armed = (
    r.same e others ∙ self,
    All-imp (λ x. (x ≢ e) × (cell s'.heap x ≡ restarted (clock x) (cell s1.heap x)))
        (λ x. cell s'.heap x ≡ restarted (clock x) (cell s.heap x)) es
        (λ x k. k.1 ∙ ap (restarted (clock x)) (old x k.0)) (All-both _ _ es others r.armed),
  );
  same = λ x a. r.same x a.1 ∙ old x (λ p. a.0 (sym p));
  events = r.events ∙ events;
}

-- a live timer that is not armed, whose next time is in the window
abbrev pub IsRestartable : Timers → ℕ → (ℕ → ℕ) → ℕ → Type 0
IsRestartable s lo clock e =
    (t : Timer) × (cell s.heap e ≡ some t)
    × (t.next ≡ 0)
    × (0 < due_at (clock e) t.interval)
    × (of_timespec s.next_ts ≤ due_at (clock e) t.interval)
    × IsWithin lo (due_at (clock e) t.interval)

-- The loop, from a state in which none of the timers is armed and all times are in the window.
pub restart-IsRestarted :
    (es : List ℕ) (lo : ℕ) (clock : ℕ → ℕ) (s : Timers)
    → IsTimers s
    → IsDistinct es
    → All (IsRestartable s lo clock) es
    → ((x : ℕ) → 0 < next_of s.heap x → IsWithin lo (next_of s.heap x))
    → (s' : Timers) × (restart es clock s ≡ ok s') × IsRestarted s lo clock es s'
restart-IsRestarted [] lo clock s v d live within = (
  s,
  restart-nil clock s,
  record { valid = v; within = within; armed = tt; same = λ x a. refl; events = refl },
)
restart-IsRestarted (e ∷ es) lo clock s v d live within =
    let (t, here, idle, soon, late, window) = live.0 in
    elim (Bool-cases t.once) [
      | inl once ↦
          let (s', run, r) = restart-IsRestarted es lo clock s v d.1 live.1 within in
          (
            s',
            restart-once clock e es s t here once ∙ run,
            IsRestarted-cons s s s' lo clock e es d.0
                (here
                  ∙ (λ i.
                      some
                        (if sym once i then t else record t { next = due_at (clock e) t.interval }))
                  ∙ sym (ap (restarted (clock e)) here))
                (λ x a. refl) refl r,
          )
      | inr recurs ↦
          let n = due_at (clock e) t.interval in
          let new = record t { next = n } in
          let (l, run1, v1) =
            start0-unarmed s (clock e) e t.interval t v here idle soon late
              (λ x a k. IsNear-within lo n (next_of s.heap x) window (within x k)) in
          let s1 : Timers = record (write s e new) { list = l } in
          let self = get_or-set_self s.heap e (some new) none (get_or-bound s.heap e t here) in
          let old : (x : ℕ) → x ≢ e → cell s1.heap x ≡ cell s.heap x =
            λ x a. get_or-set_ne s.heap e x (some new) none (λ p. a (sym p)) in
          let (s', run, r) =
            restart-IsRestarted es lo clock s1 v1 d.1
              (All-imp (λ x. (x ≢ e) × IsRestartable s lo clock x) (IsRestartable s1 lo clock) es
                (λ x k. let (u, h, z, p, q, w) = k.1 in (u, old x k.0 ∙ h, z, p, q, w))
                (All-both _ _ es d.0 live.1))
              (λ x k. elim (Bool-cases (x == e)) [
                | inl eq ↦
                    subst (IsWithin lo)
                      (sym (ap next_in (ap (cell s1.heap) ((==_iff x e).0 eq) ∙ self))) window
                | inr ne ↦
                    let o = ap next_in (old x (not-==→ne x e ne)) in
                    subst (IsWithin lo) (sym o) (within x (omega (arith, o, k)))
              ]) in
          (
            s',
            restart-recurring clock e es s s1 t here recurs run1 ∙ run,
            IsRestarted-cons s s1 s' lo clock e es d.0
                (self
                  ∙ (λ i. some (if sym recurs i then t else new))
                  ∙ sym (ap (restarted (clock e)) here))
                old refl r,
          )
    ]
