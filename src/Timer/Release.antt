-- ===== src/Timer/Release.antt =====
-- rd_timer_destroy0 and rd_timer_call: who frees a timer.
use librd.Common.{
  ℕ, zero, suc, ◌-◌, ◌*◌, ◌≡◌, ◌≢◌, refl, ap, sym, ◌∙◌, arith, Bool, true, false, not, ◌&&◌, ◌||◌,
  inl, inr, Option, none, some, Bool-cases, ◌==◌, ==_iff, ltb, bit_and, bit_or, get_or-set_self,
  get_or-set_ne, get_or-bound, set, max,
}
use librd.Common.Digit.{digit_at, digit_at-bit_or, digit_at-pow, bit_and-pow}
use librd.Common.Run.{Run, ok, ◌>>=◌}
use librd.Timer.{Timer, Timers, Heap, cell, write, stop0, destroy0, timer_call}
use librd.Timer.Order.{IsTimers}
use librd.Timer.Arm.{load-some, stop0-idle, stop0-IsTimers}

-- RD_TIMER_F_REMOVED is set.
abbrev IsRemoved : ℕ → Type 0
IsRemoved flags = (bit_and flags 4 == 0) ≡ false

removed_flag : (flags : ℕ) → (bit_and (bit_or flags 4) 4 == 0) ≡ false
removed_flag flags =
    let both : digit_at (bit_or flags 4) 2 ≡ max (digit_at flags 2) (digit_at 4 2) =
      digit_at-bit_or flags 4 2 in
    let one : digit_at 4 2 ≡ 1 = digit_at-pow 2 2 in
    let low : bit_and (bit_or flags 4) 4 ≡ digit_at (bit_or flags 4) 2 * 4 =
      bit_and-pow (bit_or flags 4) 2 in
    ground (arith, both, one, low)

destroy0-pending :
    (s s' : Timers) (clock e : ℕ) (t : Timer)
    → stop0 s clock e ≡ ok s'
    → cell s'.heap e ≡ some t
    → (t.called == 0) ≡ false
    → destroy0 s clock e ≡ ok (write s' e (record t { flags = bit_or t.flags 4 }))
unfolding destroy0
destroy0-pending s s' clock e t stopped here busy =
    rw (stopped, destroy0, load-some s'.heap e t here, busy) refl

destroy0-idle :
    (s s' : Timers) (clock e : ℕ) (t : Timer)
    → stop0 s clock e ≡ ok s'
    → cell s'.heap e ≡ some t
    → (t.called == 0) ≡ true
    → destroy0 s clock e ≡ ok (record s' { heap = set s'.heap e none })
unfolding destroy0
destroy0-idle s s' clock e t stopped here idle =
    rw (stopped, destroy0, load-some s'.heap e t here, idle) refl

-- whether rd_timer_call calls rd_timer_destroy0
abbrev ends : Timer → Bool
ends t =
    (not (bit_and t.flags 4 == 0) && (t.called == 0)) || (t.once && not (bit_and t.flags 1 == 0))

module _ (s : Timers) (clock e k : ℕ) (t : Timer) (here : cell s.heap e ≡ some t)
    (busy : t.called ≡ suc k) where
  abbrev called_once : Timer
  called_once = record t { called = t.called - 1 }

  called : ltb 0 t.called ≡ true
  called = ground (arith, busy)

  timer_call-ends :
      ends called_once ≡ true → timer_call s clock e ≡ destroy0 (write s e called_once) clock e
  unfolding timer_call
  timer_call-ends h = rw (load-some s.heap e t here, timer_call, called, h) refl

  timer_call-goes_on : ends called_once ≡ false → timer_call s clock e ≡ ok (write s e called_once)
  unfolding timer_call
  timer_call-goes_on h = rw (load-some s.heap e t here, timer_call, called, h) refl

-- `n` calls of rd_timer_call
abbrev pub run_calls : ℕ → ℕ → ℕ → Timers → Run Timers
run_calls zero clock e s = ok s
run_calls (suc n) clock e s = timer_call s clock e >>= run_calls n clock e

-- A heap in which only the cell of `e` was changed.
abbrev IsElsewhere : ℕ → Heap → Heap → Type 0
IsElsewhere e heap heap' = (x : ℕ) → x ≢ e → cell heap' x ≡ cell heap x

IsElsewhere-set : (heap : Heap) (e : ℕ) (c : Option Timer) → IsElsewhere e heap (set heap e c)
IsElsewhere-set heap e c x a = get_or-set_ne heap e x c none (λ p. a (sym p))

-- one call before the last: a removed timer stays so
call-pending :
    (s : Timers) (clock e k : ℕ) (t : Timer)
    → cell s.heap e ≡ some t
    → t.called ≡ suc (suc k)
    → t.next ≡ 0
    → IsRemoved t.flags
    → (s' : Timers) × (t' : Timer) × (timer_call s clock e ≡ ok s')
      × (cell s'.heap e ≡ some t')
      × (t'.called ≡ suc k)
      × (t'.next ≡ 0)
      × IsRemoved t'.flags
      × IsElsewhere e s.heap s'.heap
call-pending s clock e k t here busy idle flag =
    let t1 = record t { called = t.called - 1 } in
    let s1 = write s e t1 in
    let here1 = get_or-set_self s.heap e (some t1) none (get_or-bound s.heap e t here) in
    let left : t.called - 1 ≡ suc k = omega (arith, busy) in
    let some_left : (t.called - 1 == 0) ≡ false = ground (arith, busy) in
    elim (Bool-cases (ends t1)) [
      | inl h ↦
          let t2 = record t1 { flags = bit_or t.flags 4 } in
          (
            write s1 e t2,
            t2,
            timer_call-ends s clock e (suc k) t here busy h
                ∙ destroy0-pending s1 s1 clock e t1
                    (stop0-idle s1 clock e t1 here1 ((==_iff t.next 0).1 idle)) here1 some_left,
            get_or-set_self s1.heap e (some t2) none (get_or-bound s1.heap e t1 here1),
            left,
            idle,
            removed_flag t.flags,
            λ x a. IsElsewhere-set s1.heap e (some t2) x a ∙ IsElsewhere-set s.heap e (some t1) x a,
          )
      | inr h ↦ (
        s1,
        t1,
        timer_call-goes_on s clock e (suc k) t here busy h,
        here1,
        left,
        idle,
        flag,
        IsElsewhere-set s.heap e (some t1),
      )
    ]

-- the last call frees it
call-last :
    (s : Timers) (clock e : ℕ) (t : Timer)
    → cell s.heap e ≡ some t
    → t.called ≡ 1
    → t.next ≡ 0
    → IsRemoved t.flags
    → (s' : Timers) × (timer_call s clock e ≡ ok s')
      × (cell s'.heap e ≡ none)
      × IsElsewhere e s.heap s'.heap
call-last s clock e t here busy idle flag =
    let t1 = record t { called = t.called - 1 } in
    let s1 = write s e t1 in
    let bound = get_or-bound s.heap e t here in
    let here1 = get_or-set_self s.heap e (some t1) none bound in
    let none_left : (t.called - 1 == 0) ≡ true = ground (arith, busy) in
    (
      record s1 { heap = set s1.heap e none },
      timer_call-ends s clock e 0 t here busy (rw (flag, none_left) refl)
          ∙ destroy0-idle s1 s1 clock e t1
              (stop0-idle s1 clock e t1 here1 ((==_iff t.next 0).1 idle)) here1 none_left,
      get_or-set_self s1.heap e none none (get_or-bound s1.heap e t1 here1),
      λ x a. IsElsewhere-set s1.heap e none x a ∙ IsElsewhere-set s.heap e (some t1) x a,
    )

removed-freed :
    (k : ℕ) (s : Timers) (clock e : ℕ) (t : Timer)
    → cell s.heap e ≡ some t
    → t.called ≡ suc k
    → t.next ≡ 0
    → IsRemoved t.flags
    → (s' : Timers) × (run_calls (suc k) clock e s ≡ ok s')
      × (cell s'.heap e ≡ none)
      × IsElsewhere e s.heap s'.heap
removed-freed zero s clock e t here busy idle flag =
    let (s1, run, gone, same) = call-last s clock e t here busy idle flag in
    (s1, rw run refl, gone, same)
removed-freed (suc k) s clock e t here busy idle flag =
    let (s1, t1, run, here1, busy1, idle1, flag1, same1) =
      call-pending s clock e k t here busy idle flag in
    let (s2, run', gone, same) = removed-freed k s1 clock e t1 here1 busy1 idle1 flag1 in
    (s2, (λ i. run i >>= run_calls (suc k) clock e) ∙ run', gone, λ x a. same x a ∙ same1 x a)

-- rd_timer_destroy0 of a live timer with `n` pending calls, followed by these calls: none of them
-- reads a freed timer or breaks the assertion, the last one frees the timer, as rd_timer_destroy0 does
-- where none is pending, and no other timer is changed.
pub destroy0-freed :
    (n : ℕ) (s : Timers) (clock e : ℕ) (t : Timer)
    → IsTimers s
    → cell s.heap e ≡ some t
    → t.called ≡ n
    → (s' : Timers) × ((destroy0 s clock e >>= run_calls n clock e) ≡ ok s')
      × (cell s'.heap e ≡ none)
      × ((x : ℕ) → x ≢ e → cell s'.heap x ≡ cell s.heap x)
destroy0-freed zero s clock e t v here busy =
    let (s1, stopped, _, here1, same, _) = stop0-IsTimers s clock e t v here in
    let bound = get_or-bound s1.heap e _ here1 in
    (
      record s1 { heap = set s1.heap e none },
      ap (λ r. r >>= run_calls 0 clock e)
          (destroy0-idle s s1 clock e (record t { next = 0 }) stopped here1 (ground (arith, busy))),
      get_or-set_self s1.heap e none none bound,
      λ x a. IsElsewhere-set s1.heap e none x a ∙ same x a,
    )
destroy0-freed (suc k) s clock e t v here busy =
    let (s1, stopped, _, here1, same, _) = stop0-IsTimers s clock e t v here in
    let bound = get_or-bound s1.heap e _ here1 in
    let t1 = record t { next = 0; flags = bit_or t.flags 4 } in
    let (s2, run, gone, same') =
      removed-freed k (write s1 e t1) clock e t1 (get_or-set_self s1.heap e (some t1) none bound)
        busy refl (removed_flag t.flags) in
    (
      s2,
      ap (λ r. r >>= run_calls (suc k) clock e)
            (destroy0-pending s s1 clock e (record t { next = 0 }) stopped here1
              (ground (arith, busy)))
          ∙ run,
      gone,
      λ x a. same' x a ∙ IsElsewhere-set s1.heap e (some t1) x a ∙ same x a,
    )
