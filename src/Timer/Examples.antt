-- ===== src/Timer/Examples.antt =====
-- Two timers that the theorems apply to, and some calls that show what the code does.
use librd.Common.{
  ℕ, zero, suc, ◌*◌, ◌+◌, ◌<◌, ◌≤◌, ◌≡◌, ◌≢◌, ◌^◌, ◌%◌, refl, ap, arith, true, false, inl, inr,
  none, some, List, [], ◌∷◌, ◌++◌, All, some_inj, none-ne-some, In,
}
use librd.Common.Run.{ok, ◌>>=◌}
use librd.Timer.{Timer, Timers, cell, of_timespec, cmp_le, start, destroy0, run_pass, timer_next}
use librd.Timer.Order.{next_of, IsTimers}
use librd.Timer.Start.{due_at, start-IsTimers}
use librd.Timer.Insert.{IsNear}
use librd.Timer.Fire.{fired}
use librd.Timer.Restart.{restarted}
use librd.Timer.Release.{run_calls, destroy0-freed}
use librd.Timer.Pass.{run_pass-fires_due}

-- a recurring timer of 5 milliseconds, and one that fires once
abbrev recurring : Timer
recurring = record { once = false; interval = 5; next = 100; called = 0; flags = 0 }

abbrev single : Timer
single = record { once = true; interval = 1; next = 200; called = 0; flags = 0 }

abbrev timers : Timers
timers = record {
  heap = some recurring ∷ some single ∷ [];
  list = 0 ∷ 1 ∷ [];
  next_ts = record { sec = 0; nsec = 100_000 };
  events = [];
}

timers_next : of_timespec timers.next_ts ≡ 100
unfolding of_timespec
timers_next = refl

timers-linked : (e : ℕ) → 0 < next_of timers.heap e → In e timers.list
timers-linked zero h = inl refl
timers-linked (suc zero) h = inr (inl refl)
timers-linked (suc (suc e)) h = absurd (omega (arith, h))

timers-IsTimers : IsTimers timers
timers-IsTimers = record {
  armed = (omega arith, (omega arith, tt));
  linked = timers-linked;
  ordered = ((omega arith, tt), (tt, tt));
  distinct = (((λ p. omega (arith, p)), tt), (tt, tt));
  early = (omega (arith, timers_next), (omega (arith, timers_next), tt));
}

timers-IsNear :
    (x : ℕ) → x ≢ 1 → 0 < next_of timers.heap x → IsNear (due_at 160 2) (next_of timers.heap x)
timers-IsNear zero a h = (omega arith, omega arith)
timers-IsNear (suc zero) a h = absurd (a refl)
timers-IsNear (suc (suc x)) a h = absurd (omega (arith, h))

-- two recurring timers, which are both due at 250
abbrev both : Timers
both = record timers { heap = some recurring ∷ some (record single { once = false }) ∷ [] }

both-linked : (e : ℕ) → 0 < next_of both.heap e → In e both.list
both-linked zero h = inl refl
both-linked (suc zero) h = inr (inl refl)
both-linked (suc (suc e)) h = absurd (omega (arith, h))

both-IsTimers : IsTimers both
both-IsTimers = record {
  armed = (omega arith, (omega arith, tt));
  linked = both-linked;
  ordered = ((omega arith, tt), (tt, tt));
  distinct = (((λ p. omega (arith, p)), tt), (tt, tt));
  early = (omega (arith, timers_next), (omega (arith, timers_next), tt));
}

-- the clock goes on between the timers that are started again
abbrev ticking : ℕ → ℕ
ticking x = 260 + x

both-soon :
    (x : ℕ) (t : Timer)
    → cell both.heap x ≡ some t
    → ticking x + t.interval * 1000 % 2 ^ 32 < 250 + 2 ^ 31
both-soon zero t h = let i = ap (λ u. Timer.interval u) (some_inj h) in omega (arith, i)
both-soon (suc zero) t h = let i = ap (λ u. Timer.interval u) (some_inj h) in omega (arith, i)
both-soon (suc (suc x)) t h = absurd (none-ne-some h)

both-horizon : (x : ℕ) → next_of both.heap x < 250 + 2 ^ 31
both-horizon zero = omega arith
both-horizon (suc zero) = omega arith
both-horizon (suc (suc x)) = omega arith

run_pass-fires_due_example :
    (due : List ℕ) × (s' : Timers) × (run_pass both 250 ticking 270 ≡ ok s')
    × ((rest : List ℕ) × (both.list ≡ due ++ rest))
    × IsTimers s'
    × (s'.events ≡ both.events ++ due)
    × All (λ x. (0 < next_of both.heap x) × (next_of both.heap x ≤ 250)) due
    × ((x : ℕ) → 0 < next_of both.heap x → next_of both.heap x ≤ 250 → In x due)
    × All (λ x. cell s'.heap x ≡ restarted (ticking x) (fired (cell both.heap x))) due
    × ((x : ℕ) → All (λ y. y ≢ x) due → cell s'.heap x ≡ cell both.heap x)
run_pass-fires_due_example =
    run_pass-fires_due both 250 ticking 270 both-IsTimers (λ x. omega arith) (omega arith) both-soon
      both-horizon

start-IsTimers_example :
    (s' : Timers) × (start timers 160 1 2 ≡ ok s')
    × IsTimers s'
    × (cell s'.heap 1 ≡ some (record single { interval = 2; next = due_at 160 2 }))
    × ((x : ℕ) → x ≢ 1 → cell s'.heap x ≡ cell timers.heap x)
start-IsTimers_example =
    start-IsTimers timers 160 1 2 single timers-IsTimers refl (omega arith) timers-IsNear

-- Timer 0 is still 50 microseconds away, and `now < next` gives 1; 5 seconds after its time the
-- result is 5000.
not_yet : timer_next timers 50 0 ≡ ok 1
unfolding timer_next
not_yet = refl

long_past : timer_next timers 5_000_100 0 ≡ ok 5000
unfolding timer_next
long_past = refl

-- a time that is 2 ^ 31 microseconds later counts as earlier
far_apart : cmp_le (100 + 2 ^ 31 + 1) 100 ≡ true
unfolding cmp_le
far_apart = refl

-- an interval of 4294968 milliseconds is one of 704 microseconds
short_interval : due_at 0 4_294_968 ≡ 704
short_interval = refl

-- a timer with two pending calls is freed by the second of them
abbrev busy_timer : Timer
busy_timer = record single { called = 2 }

abbrev busy_timers : Timers
busy_timers = record timers { heap = some recurring ∷ some busy_timer ∷ [] }

busy_timers-linked : (e : ℕ) → 0 < next_of busy_timers.heap e → In e busy_timers.list
busy_timers-linked zero h = inl refl
busy_timers-linked (suc zero) h = inr (inl refl)
busy_timers-linked (suc (suc e)) h = absurd (omega (arith, h))

busy_timers-IsTimers : IsTimers busy_timers
busy_timers-IsTimers = record {
  armed = timers-IsTimers.armed;
  linked = busy_timers-linked;
  ordered = timers-IsTimers.ordered;
  distinct = timers-IsTimers.distinct;
  early = timers-IsTimers.early;
}

destroy0-freed_example :
    (s' : Timers) × ((destroy0 busy_timers 160 1 >>= run_calls 2 160 1) ≡ ok s')
    × (cell s'.heap 1 ≡ none)
    × ((x : ℕ) → x ≢ 1 → cell s'.heap x ≡ cell busy_timers.heap x)
destroy0-freed_example =
    destroy0-freed 2 busy_timers 160 1 busy_timer busy_timers-IsTimers refl refl
