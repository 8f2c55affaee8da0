-- ===== src/Timer.antt =====
-- rdtimer.c and rdtimer.h, with LIST_INSERT_SORTED of rdsysqueue.h and the time stamps of rdtime.h.
-- Timers live on a heap, whose addresses are places in a list; a cell is empty once its timer was
-- freed. Each function that reads the clock takes what it reads, in microseconds.
pub mod Order
pub mod Arm
pub mod Fire
pub mod Insert
pub mod Link
pub mod Start
pub mod Restart
pub mod Pass
pub mod Release
mod Examples
use librd.Common.{
  ℕ, zero, suc, ◌+◌, ◌-◌, ◌*◌, ◌/◌, ◌%◌, ◌^◌, Bool, true, false, not, ◌&&◌, ◌||◌, Option, none,
  some, List, [], ◌∷◌, ◌++◌, get_or, set, length, ltb, leb, ◌==◌, if◌then◌else◌, bit_and, bit_or,
}
use librd.Common.Int.{ℤ, pos, negsuc}
use librd.Common.Run.{Run, ok, fault, ◌>>=◌}

-- `struct timespec`
pub record Timespec : Type 0 where
  pub sec : ℕ
  pub nsec : ℕ

-- TS_TO_TIMESPEC; the test for a whole second of nanoseconds is never met
abbrev pub carry : Timespec → Timespec
carry t =
    if leb 1_000_000_000 t.nsec
    then record { sec = t.sec + 1; nsec = t.nsec - 1_000_000_000 }
    else t

unfoldable pub to_timespec : ℕ → Timespec
to_timespec ts = carry (record { sec = ts / 1_000_000; nsec = ts % 1_000_000 * 1000 })

-- TIMESPEC_TO_TS
unfoldable pub of_timespec : Timespec → ℕ
of_timespec t = t.sec * 1_000_000 + t.nsec / 1000

-- `rd_timer_t`, without the thread and the callback; `once` is RD_TIMER_ONCE
pub record Timer : Type 0 where
  pub once : Bool
  pub interval : ℕ
  pub next : ℕ
  pub called : ℕ
  pub flags : ℕ

abbrev pub Heap : Type 0
Heap = List (Option Timer)

-- `rd_timers`, `rd_timers_next_ts`, and the events added to the timers' threads
pub record Timers : Type 0 where
  pub heap : Heap
  pub list : List ℕ
  pub next_ts : Timespec
  pub events : List ℕ

abbrev pub cell : Heap → ℕ → Option Timer
cell heap e = get_or heap e none

-- `rt->field`; a freed timer is a `fault`
abbrev pub load : Heap → ℕ → Run Timer
load heap e = elim (cell heap e) [ none ↦ fault | some t ↦ ok t ]

abbrev pub write : Timers → ℕ → Timer → Timers
write s e t = record s { heap = set s.heap e (some t) }

-- rd_timer_init, by rd_timer_new
unfoldable pub timer_new : Timers → Bool → Timers × ℕ
timer_new s once = (
  record s {
    heap =
        s.heap ++ some (record { once = once; interval = 0; next = 0; called = 0; flags = 0 }) ∷ [];
  },
  length s.heap,
)

-- rd_timers_next_update for the first timer, or an hour without one
unfoldable pub next_update : Timers → ℕ → Option ℕ → Run Timers
unfolding to_timespec
next_update s clock none = ok (record s { next_ts = to_timespec (clock + 3600 * 1_000_000) })
next_update s clock (some e) = load s.heap e >>= λ t. ok (record s { next_ts = to_timespec t.next })

-- `rd_timer_cmp(a, b) <= 0`: the difference as an `int`
unfoldable pub cmp_le : ℕ → ℕ → Bool
cmp_le a b = let d = (a + 2 ^ 64 - b) % 2 ^ 64 % 2 ^ 32 in (d == 0) || leb (2 ^ 31) d

-- LIST_INSERT_SORTED of the timer at `e`, which is due at `next`
unfoldable pub insert_sorted : Heap → ℕ → ℕ → List ℕ → Run (List ℕ)
unfolding cmp_le
insert_sorted heap next e [] = ok (e ∷ [])
insert_sorted heap next e (x ∷ xs) =
    let rest = insert_sorted heap next e xs >>= λ l. ok (x ∷ l) in
    load heap x >>= λ u. if cmp_le next u.next then ok (e ∷ x ∷ xs) else rest

-- LIST_REMOVE, with LIST_NEXT of what is removed; what is not linked is a `fault`
abbrev pub first_of : List ℕ → Option ℕ
first_of [] = none
first_of (x ∷ xs) = some x

unfoldable pub unlink : ℕ → List ℕ → Run (List ℕ × Option ℕ)
unlink e [] = fault
unlink e (x ∷ xs) =
    let rest = unlink e xs >>= λ (l, after). ok (x ∷ l, after) in
    if x == e then ok (xs, first_of xs) else rest

-- `LIST_FIRST(&rd_timers) == rt`
abbrev pub is_first : ℕ → List ℕ → Bool
is_first e [] = false
is_first e (x ∷ xs) = x == e

-- rd_timer_stop0
unfoldable pub stop0 : Timers → ℕ → ℕ → Run Timers
unfolding next_update unlink
stop0 s clock e = load s.heap e >>= λ t.
    let removed = unlink e s.list >>= λ (l, after).
    (if (t.called == 0) && is_first e s.list then next_update s clock after else ok s) >>= λ s'.
    ok (write (record s' { list = l }) e (record t { next = 0 })) in
    if t.next == 0 then ok s else removed

-- rd_timer_start0; `interval_ms * 1000` is of 32 bits
unfoldable pub start0 : Timers → ℕ → ℕ → ℕ → Bool → Run Timers
unfolding stop0 insert_sorted of_timespec
start0 s clock e interval_ms update = stop0 s clock e >>= λ s'. load s'.heap e >>= λ t.
    let next = (clock + interval_ms * 1000 % 2 ^ 32) % 2 ^ 64 in
    let armed = write s' e (record t { next = next }) in
    let at_head = record armed { list = e ∷ armed.list } in
    let sorted =
      insert_sorted armed.heap next e armed.list >>= λ l. ok (record armed { list = l }) in
    if ltb next (of_timespec s'.next_ts)
    then (if update then next_update at_head clock (some e) else ok at_head)
    else sorted

-- rd_timer_start
unfoldable pub start : Timers → ℕ → ℕ → ℕ → Run Timers
unfolding start0
start s clock e interval_ms = load s.heap e >>= λ t.
    start0 (write s e (record t { interval = interval_ms })) clock e interval_ms true

-- rd_timer_add
unfoldable pub timer_add : Timers → ℕ → Bool → ℕ → Run Timers
unfolding timer_new start
timer_add s clock once interval_ms =
    let (s', e) = timer_new s once in
    load s'.heap e >>= λ t.
    start (write s' e (record t { flags = bit_or t.flags 1 })) clock e interval_ms

-- rd_timer_destroy0
unfoldable pub destroy0 : Timers → ℕ → ℕ → Run Timers
unfolding stop0
destroy0 s clock e = stop0 s clock e >>= λ s'. load s'.heap e >>= λ t. ok (
    if not (t.called == 0)
    then write s' e (record t { flags = bit_or t.flags 4 })
    else record s' { heap = set s'.heap e none })

-- rd_timer_call, without the call of the callback, which holds no lock; `fault` is the assertion too
unfoldable pub timer_call : Timers → ℕ → ℕ → Run Timers
timer_call s clock e = load s.heap e >>= λ t.
    let t' = record t { called = t.called - 1 } in
    let gone = not (bit_and t'.flags 4 == 0) && (t'.called == 0) in
    let atomic = t'.once && not (bit_and t'.flags 1 == 0) in
    if ltb 0 t.called
    then (if gone || atomic then destroy0 (write s e t') clock e else ok (write s e t'))
    else fault

-- The first loop of rd_timers_run, over the list: the timers that are due at `now` are taken from it,
-- and an event is added for each. The result has `callouts` too. The alert on a stalled thread is
-- left out.
unfoldable pub expire : List ℕ → ℕ → Timers → List ℕ → Run (Timers × List ℕ)
expire [] now s callouts = ok (s, callouts)
expire (e ∷ rest) now s callouts = load s.heap e >>= λ t.
    let fired =
      write (record s { list = rest; events = s.events ++ e ∷ [] }) e
        (record t { next = 0; called = t.called + 1 }) in
    let more = expire rest now fired (callouts ++ e ∷ []) in
    if leb t.next now then more else ok (s, callouts)

-- the second loop, over `callouts`; `clock e` is what rd_clock returns when the timer at `e` is started
unfoldable pub restart : List ℕ → (ℕ → ℕ) → Timers → Run Timers
restart [] clock s = ok s
restart (e ∷ es) clock s = load s.heap e >>= λ t.
    (if t.once then ok s else start0 s (clock e) e t.interval false) >>= restart es clock

-- One pass of rd_timers_run, up to the wait. `now`, `clock` and `later` are what rd_clock returns: before
-- the loops, when each timer is started again, and behind the loops.
unfoldable pub run_pass : Timers → ℕ → (ℕ → ℕ) → ℕ → Run Timers
run_pass s now clock later = expire s.list now s [] >>= λ (s', callouts).
    restart callouts clock s' >>= λ s''. next_update s'' later (first_of s''.list)

-- rd_timer_next; the result is the 32 bits of an `int`
unfoldable pub timer_next : Timers → ℕ → ℕ → Run ℕ
timer_next s now e = load s.heap e >>= λ t.
    ok (if t.next == 0 then 0 else if ltb now t.next then 1 else (now - t.next) / 1000 % 2 ^ 32)
