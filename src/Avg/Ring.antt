-- ===== src/Avg/Ring.antt =====
-- The current period: rd_avg of it, and rd_avg_period_next, which sets up the next one.
use librd.Common.{
  ℕ, ◌+◌, ◌-◌, ◌%◌, ◌^◌, ◌<◌, ◌≡◌, refl, ap, ◌∙◌, arith, true, false, none, some, length, get_elem?,
  get_elem?-bound, get_elem?-set_self, set, length-set, ◌==◌,
}
use librd.Common.Int.{ℤ, negsuc}
use librd.Common.Run.{Run, ok, fault}
use librd.Avg.{
  Period, Avg, no_value, last_or, put_period, avg_new_rate, avg_start, period_next, calc, avg,
  zero_period, is_curr, as_u64,
}
use librd.Avg.Put.{IsAvg, period_at-some}

-- the current period of an average of rates, with the time that it covers
abbrev pub timed : {D : Type 0} → Avg D → Period D → ℕ → Period D
timed ra p clock = record p { duration = (last_or p.last clock + 2 ^ 64 - ra.start) % 2 ^ 64 }

-- the place of the next period
abbrev pub next_place : {D : Type 0} → Avg D → ℕ
next_place ra = (ra.curri + 1) % ra.periods

module _ {D : Type 0} (zero_dbl : D) (per_second : ℕ → ℕ → D) where
  pub avg-curr :
      (ra : Avg D) (p : Period D) (clock : ℕ)
      → IsAvg ra
      → get_elem? ra.period ra.curri ≡ some p
      → avg zero_dbl per_second ra (negsuc 0) clock
        ≡ ok (
          put_period ra ra.curri (calc zero_dbl per_second ra.type (timed ra p clock)),
          (calc zero_dbl per_second ra.type (timed ra p clock)).res,
        )
  unfolding avg
  avg-curr ra p clock v here =
      let self : (ra.curri == ra.curri) ≡ true = ground arith in
      let current : is_curr ra.curr ra.curri ≡ true = ap (λ c. is_curr c ra.curri) v.curr ∙ self in
      rw (period_at-some ra ra.curri p here, avg, current) refl

  -- a period that rd_avg_period_next has just set up
  abbrev pub fresh : Period D
  fresh = record (zero_period zero_dbl per_second) {
    res = record { dbl = zero_dbl; sum = 0; high = 0; low = no_value };
  }

  pub period_next-IsAvg :
      (ra : Avg D) (now : ℕ)
      → 0 < ra.periods
      → length ra.period ≡ ra.periods
      → (ra' : Avg D) × (period_next zero_dbl per_second ra now ≡ ok ra')
        × IsAvg ra'
        × (get_elem? ra'.period ra'.curri ≡ some fresh)
        × (ra'.start ≡ now)
        × (ra'.end ≡ (now + as_u64 ra.duration) % 2 ^ 64)
        × (ra'.type ≡ ra.type)
        × (ra'.period ≡ set ra.period (next_place ra) fresh)
        × (ra'.curri ≡ next_place ra)
        × (ra'.periods ≡ ra.periods)
        × (ra'.rolled ≡ ra.rolled)
  unfolding period_next
  period_next-IsAvg ra now some_periods size =
      let i = next_place ra in
      let bound : i < ra.periods = omega (arith, some_periods) in
      let (p, here) = get_elem?-bound ra.period i (omega (arith, bound, size)) in
      let some' : (ra.periods == 0) ≡ false = ground (arith, some_periods) in
      (
        record ra {
          curri = i;
          curr = some i;
          start = now;
          end = (now + as_u64 ra.duration) % 2 ^ 64;
          period = set ra.period i fresh;
        },
        rw (some', period_next, period_at-some ra i p here) refl,
        record { size = length-set ra.period i fresh ∙ size; bound = bound; curr = refl },
        get_elem?-set_self ra.period i p fresh here,
        refl,
        refl,
        refl,
        refl,
        refl,
        refl,
        refl,
      )

  -- rd_avg_new_rate and rd_avg_start
  abbrev pub started : ℤ → ℤ → ℤ → ℕ → Run (Avg D)
  started periods duration interval now =
      elim (avg_new_rate zero_dbl per_second periods duration interval) [
        | none ↦ fault
        | some ra ↦ avg_start zero_dbl per_second ra now
      ]
