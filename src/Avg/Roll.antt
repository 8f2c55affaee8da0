-- ===== src/Avg/Roll.antt =====
-- rd_avg_roll: the period that is closed, and the one that follows it.
use librd.Common.{
  ℕ, ◌+◌, ◌-◌, ◌/◌, ◌%◌, ◌^◌, ◌<◌, ◌≤◌, ◌≡◌, refl, ap, sym, ◌∙◌, arith, true, false, Bool-cases,
  inl, inr, some, List, [], ◌∷◌, ◌++◌, length-set, get_elem?, get_elem?-bound, get_elem?-set_self,
  get_elem?-set_ne, set, leb, if◌then◌else◌, ◌==◌, not-==→ne, ==_iff,
}
use librd.Common.Int.{negsuc}
use librd.Common.Run.{ok}
use native.Mathlib.Nat.{mod-eq_of_lt, mod_self}
use librd.Avg.{
  AvgType, Res, Period, Avg, put_period, period_next, avg_put, calc, avg, which, is_curr, as_u64,
  roll, put_value,
}
use librd.Avg.Put.{IsAvg, added, curr_at-IsAvg, period_at-some, put_period-IsAvg, put_value-rate}
use librd.Avg.Ring.{timed, avg-curr, fresh, next_place, period_next-IsAvg}

-- the place before the next one
before_next :
    (c n : ℕ)
    → c < n
    → 1 < n
    → (if (c + 1) % n == 0 then ok (n - 1) else ok (((c + 1) % n - 1) % n)) ≡ ok c
before_next c n h k = elim (Bool-cases (c + 1 == n)) [
  | inl last ↦
      let e = (==_iff (c + 1) n).0 last in
      let wraps : (c + 1) % n ≡ 0 = ap (λ m. m % n) e ∙ mod_self n in
      let back : n - 1 ≡ c = omega (arith, e) in rw (wraps, back) refl
  | inr inside ↦
      let ne = not-==→ne (c + 1) n inside in
      let stays : (c + 1) % n ≡ c + 1 = mod-eq_of_lt (omega (arith, h, ne)) in
      let up : (c + 1 == 0) ≡ false = ground arith in
      let back : (c + 1 - 1) % n ≡ c = ap (λ m. m % n) (omega arith) ∙ mod-eq_of_lt h in
      rw (stays, up, back) refl
]

next_ne : (c n : ℕ) → c < n → 1 < n → ((c + 1) % n == c) ≡ false
next_ne c n h k = elim (Bool-cases (c + 1 == n)) [
  | inl last ↦
      let e = (==_iff (c + 1) n).0 last in
      let wraps : (c + 1) % n ≡ 0 = ap (λ m. m % n) e ∙ mod_self n in ground (arith, wraps, e, k)
  | inr inside ↦
      let ne = not-==→ne (c + 1) n inside in
      let stays : (c + 1) % n ≡ c + 1 = mod-eq_of_lt (omega (arith, h, ne)) in ground (arith, stays)
]

which-previous :
    {D : Type 0} (ra : Avg D) (c : ℕ)
    → c < ra.periods
    → 1 < ra.periods
    → ra.curri ≡ (c + 1) % ra.periods
    → which ra (negsuc 1) ≡ ok c
unfolding which
which-previous ra c h k next = rw next (before_next c ra.periods h k)

-- the periods called back for, once the current one is closed
abbrev pub called : {D : Type 0} → Avg D → List ℕ
called ra = if ra.roll_cb then ra.rolled ++ ra.curri ∷ [] else ra.rolled

module _ {D : Type 0} (zero_dbl : D) (per_second : ℕ → ℕ → D) where
  -- what the closed period has for a result does not change when it is computed again
  calc_again :
      (p : Period D) (c m : ℕ)
      → (calc zero_dbl per_second AvgType.rate
          (record (calc zero_dbl per_second AvgType.rate (record p { closed = c })) {
            missed = m;
          })).res
        ≡ (calc zero_dbl per_second AvgType.rate p).res
  unfolding calc
  calc_again p c m = elim (Bool-cases (p.duration == 0)) [
    | inl none_yet ↦ rw (none_yet, none_yet) refl
    | inr some_time ↦ rw (some_time, some_time) refl
  ]

  -- the period as rd_avg_roll closes it
  abbrev closed : Avg D → Period D → ℕ → Period D
  closed ra p now =
      record (calc zero_dbl per_second ra.type (record (timed ra p now) { closed = now })) {
        missed = (now + 2 ^ 64 - ra.end) % 2 ^ 64 / as_u64 ra.duration % 2 ^ 32;
      }

  roll-next :
      (ra : Avg D) (p : Period D) (now : ℕ)
      → IsAvg ra
      → get_elem? ra.period ra.curri ≡ some p
      → (as_u64 ra.duration == 0) ≡ false
      → roll zero_dbl per_second ra now
        ≡ period_next zero_dbl per_second
            (record (put_period ra ra.curri (closed ra p now)) { rolled = called ra })
            now
  unfolding roll
  roll-next ra p now v here lasts =
      rw (curr_at-IsAvg ra v, roll, period_at-some ra ra.curri p here, lasts) refl

  avg_put-late :
      (ra ra' : Avg D) (val now : ℕ)
      → leb ra.end now ≡ true
      → roll zero_dbl per_second ra now ≡ ok ra'
      → avg_put zero_dbl per_second ra val now ≡ put_value ra' val now
  unfolding avg_put
  avg_put-late ra ra' val now late run = rw (late, run) refl

  avg-previous :
      (ra : Avg D) (c : ℕ) (p : Period D) (clock : ℕ)
      → which ra (negsuc 1) ≡ ok c
      → get_elem? ra.period c ≡ some p
      → ra.curr ≡ some ra.curri
      → (ra.curri == c) ≡ false
      → avg zero_dbl per_second ra (negsuc 1) clock
        ≡ ok (
          put_period ra c (calc zero_dbl per_second ra.type p),
          (calc zero_dbl per_second ra.type p).res,
        )
  unfolding avg
  avg-previous ra c p clock place here curr apart =
      let other : is_curr ra.curr c ≡ false = ap (λ i. is_curr i c) curr ∙ apart in
      rw (place, avg, period_at-some ra c p here, other) refl

  -- the ring after the roll-over
  rolled :
      (ra : Avg D) (p : Period D) (now : ℕ)
      → IsAvg ra
      → get_elem? ra.period ra.curri ≡ some p
      → 0 < as_u64 ra.duration
      → 1 < ra.periods
      → (ra' : Avg D) × (roll zero_dbl per_second ra now ≡ ok ra')
        × IsAvg ra'
        × (get_elem? ra'.period ra'.curri ≡ some (fresh zero_dbl per_second))
        × (ra'.start ≡ now)
        × (ra'.type ≡ ra.type)
        × (ra'.rolled ≡ called ra)
        × (get_elem? ra'.period ra.curri ≡ some (closed ra p now))
        × (ra'.curri ≡ next_place ra)
        × (ra'.periods ≡ ra.periods)
  rolled ra p now v here lasts several =
      let ra0 : Avg D = record (put_period ra ra.curri (closed ra p now)) { rolled = called ra } in
      let wait : (as_u64 ra.duration == 0) ≡ false = ground (arith, lasts) in
      let (ra', run, v', there, from, till, type, ring, place, periods, trace) =
        period_next-IsAvg zero_dbl per_second ra0 now (omega (arith, several))
          (length-set ra.period ra.curri (closed ra p now) ∙ v.size) in
      let apart =
        not-==→ne (next_place ra) ra.curri (next_ne ra.curri ra.periods v.bound several) in
      (
        ra',
        roll-next ra p now v here wait ∙ run,
        v',
        there,
        from,
        type,
        trace,
        ap (λ l. get_elem? l ra.curri) ring
            ∙ get_elem?-set_ne (set ra.period ra.curri (closed ra p now)) (next_place ra) ra.curri
                (fresh zero_dbl per_second) apart
            ∙ get_elem?-set_self ra.period ra.curri p (closed ra p now) here,
        place,
        periods,
      )

  -- When a value is put at or after the end of the current period of a started average of rates
  -- with two periods or more and a duration that is not 0, rd_avg_put closes the period, calls back for
  -- it if a callback is set and else for none, and puts the value as the first of the next one, which
  -- starts then. What rd_avg returned for the current period at that time, it returns for the previous
  -- one from then on.
  pub avg_put-rolls :
      (ra : Avg D) (val now clock : ℕ)
      → IsAvg ra
      → ra.type ≡ AvgType.rate
      → 0 < as_u64 ra.duration
      → 1 < ra.periods
      → ra.end ≤ now
      → (ra' : Avg D) × (before : Avg D) × (after : Avg D) × (r : Res D) × (avg_put zero_dbl
            per_second ra val now
          ≡ ok ra')
        × IsAvg ra'
        × (ra'.start ≡ now)
        × (ra'.rolled ≡ called ra)
        × (get_elem? ra'.period ra'.curri ≡ some (added (fresh zero_dbl per_second) val now))
        × (avg zero_dbl per_second ra (negsuc 0) now ≡ ok (before, r))
        × (avg zero_dbl per_second ra' (negsuc 1) clock ≡ ok (after, r))
  avg_put-rolls ra val now clock v type lasts several late =
      let new = added (fresh zero_dbl per_second) val now in
      let (p, here) = get_elem?-bound ra.period ra.curri (omega (arith, v.bound, v.size)) in
      let (ra1, run, v1, there, from, type1, trace, old, place, periods) =
        rolled ra p now v here lasts several in
      let ra' = put_period ra1 ra1.curri new in
      let late' : leb ra.end now ≡ true = ground (arith, late) in
      let apart = ap (λ i. i == ra.curri) place ∙ next_ne ra.curri ra.periods v.bound several in
      let still = get_elem?-set_ne ra1.period ra1.curri ra.curri new (not-==→ne _ _ apart) ∙ old in
      let which' =
        which-previous ra' ra.curri (omega (arith, v.bound, periods))
          (omega (arith, several, periods)) (place ∙ ap (λ n. (ra.curri + 1) % n) (sym periods)) in
      let prev = avg-previous ra' ra.curri (closed ra p now) clock which' still v1.curr apart in
      let kept =
        ap
          (λ t.
            (calc zero_dbl per_second t
              (record (calc zero_dbl per_second t (record (timed ra p now) { closed = now })) {
                missed = (now + 2 ^ 64 - ra.end) % 2 ^ 64 / as_u64 ra.duration % 2 ^ 32;
              })).res)
          type
        ∙ calc_again (timed ra p now) now
            ((now + 2 ^ 64 - ra.end) % 2 ^ 64 / as_u64 ra.duration % 2 ^ 32)
        ∙ sym (ap (λ t. (calc zero_dbl per_second t (timed ra p now)).res) type) in
      (
        ra',
        put_period ra ra.curri (calc zero_dbl per_second ra.type (timed ra p now)),
        put_period ra' ra.curri (calc zero_dbl per_second ra1.type (closed ra p now)),
        (calc zero_dbl per_second ra.type (timed ra p now)).res,
        avg_put-late ra ra1 val now late' run
            ∙ put_value-rate ra1 (fresh zero_dbl per_second) val now v1 (type1 ∙ type) there,
        put_period-IsAvg ra1 ra1.curri new v1,
        from,
        trace,
        get_elem?-set_self ra1.period ra1.curri (fresh zero_dbl per_second) new there,
        avg-curr zero_dbl per_second ra p now v here,
        prev ∙ (λ i. ok (
          put_period ra' ra.curri (calc zero_dbl per_second ra1.type (closed ra p now)),
          (ap (λ t. (calc zero_dbl per_second t (closed ra p now)).res) type1 ∙ kept) i,
        )),
      )
