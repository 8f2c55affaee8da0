-- ===== src/Avg/Rate.antt =====
-- From rd_avg_new_rate to rd_avg: the result for the values of one period.
use librd.Common.{
  ℕ, ◌+◌, ◌-◌, ◌%◌, ◌^◌, ◌<◌, ◌≤◌, ◌≡◌, refl, ap, ◌∙◌, arith, false, none, some, List, [], ◌∷◌, All,
  All-imp, ◌||◌, length-replicate, get_elem?, get_elem?-set_self, ltb, leb, max, min, ◌==◌,
  replicate,
}
use librd.Common.Int.{ℤ, pos, negsuc}
use librd.Common.Run.{Run, ok, fault, ◌>>=◌}
use librd.Avg.{
  AvgType, Period, Avg, no_value, last_or, put_period, avg_new_rate, avg_start, avg_new, avg_put,
  calc, avg, zero_period,
}
use librd.Avg.Put.{IsAvg, added, put_period-IsAvg, put_value-rate}
use librd.Avg.Sum.{
  Sample, total, largest, smallest, last_time, added_all, added_all-cnt, added_all-high,
  added_all-low, added_all-last, last_time-between, smallest-le,
}
use librd.Avg.Ring.{timed, avg-curr, fresh, period_next-IsAvg, started}

module _ {D : Type 0} (zero_dbl : D) (per_second : ℕ → ℕ → D) where
  -- the values put one after the other
  abbrev pub put_all : Avg D → List Sample → Run (Avg D)
  put_all ra [] = ok ra
  put_all ra (x ∷ xs) = avg_put zero_dbl per_second ra x.0 x.1 >>= λ ra'. put_all ra' xs

  avg_put-early :
      (ra : Avg D) (p : Period D) (val now : ℕ)
      → IsAvg ra
      → ra.type ≡ AvgType.rate
      → get_elem? ra.period ra.curri ≡ some p
      → now < ra.end
      → avg_put zero_dbl per_second ra val now ≡ ok (put_period ra ra.curri (added p val now))
  unfolding avg_put
  avg_put-early ra p val now v type here early =
      let early' : leb ra.end now ≡ false = ground (arith, early) in
      rw (early', avg_put) (put_value-rate ra p val now v type here)

  put_all-early :
      (ra : Avg D) (p : Period D) (xs : List Sample)
      → IsAvg ra
      → ra.type ≡ AvgType.rate
      → get_elem? ra.period ra.curri ≡ some p
      → All (λ x. x.1 < ra.end) xs
      → (ring : List (Period D)) × (put_all ra xs ≡ ok (record ra { period = ring }))
        × (get_elem? ring ra.curri ≡ some (added_all p xs))
        × IsAvg (record ra { period = ring })
  put_all-early ra p [] v type here early = (ra.period, refl, here, v)
  put_all-early ra p (x ∷ xs) v type here early =
      let first = avg_put-early ra p x.0 x.1 v type here early.0 in
      let ra1 = put_period ra ra.curri (added p x.0 x.1) in
      let (ring, run, there, v') =
        put_all-early ra1 (added p x.0 x.1) xs (put_period-IsAvg ra ra.curri (added p x.0 x.1) v)
          type (get_elem?-set_self ra.period ra.curri p (added p x.0 x.1) here) early.1 in
      (ring, (λ i. first i >>= λ r. put_all r xs) ∙ run, there, v')

  pub calc-rate :
      (p : Period D)
      → (p.duration == 0) ≡ false
      → calc zero_dbl per_second AvgType.rate p ≡ record p {
        res = record {
          dbl = per_second p.cnt p.duration;
          sum = p.cnt;
          high = p.res.high;
          low = p.res.low;
        };
      }
  unfolding calc
  calc-rate p h = rw h refl

  abbrev new_rate : ℕ → ℕ → ℤ → Avg D
  new_rate n d interval = record (avg_new zero_dbl per_second AvgType.rate n (pos d)) {
    interval = interval;
    period = replicate n (zero_period zero_dbl per_second);
  }

  avg_new_rate-some :
      (n d : ℕ) (interval : ℤ)
      → 0 < n
      → n ≤ 10000
      → avg_new_rate zero_dbl per_second (pos n) (pos d) interval ≡ some (new_rate n d interval)
  unfolding avg_new_rate
  avg_new_rate-some n d interval some_periods few =
      let fine : ((n == 0) || ltb 10000 n) ≡ false = ground (arith, some_periods, few) in
      rw fine refl

  started-rate :
      (n d : ℕ) (interval : ℤ) (t0 : ℕ)
      → 0 < n
      → n ≤ 10000
      → t0 + d < 2 ^ 64
      → (ra : Avg D) × (started zero_dbl per_second (pos n) (pos d) interval t0 ≡ ok ra)
        × IsAvg ra
        × (ra.type ≡ AvgType.rate)
        × (get_elem? ra.period ra.curri ≡ some (fresh zero_dbl per_second))
        × (ra.start ≡ t0)
        × (ra.end ≡ t0 + d)
  unfolding avg_start avg_new
  started-rate n d interval t0 some_periods few fits =
      let (ra, run, v, here, from, till, type, _, _, _, _) =
        period_next-IsAvg zero_dbl per_second (new_rate n d interval) t0 some_periods
          (length-replicate n (zero_period zero_dbl per_second)) in
      (
        ra,
        ap (λ o. elim o [ none ↦ fault | some ra ↦ avg_start zero_dbl per_second ra t0 ])
              (avg_new_rate-some n d interval some_periods few)
            ∙ run,
        v,
        type,
        here,
        from,
        till ∙ omega (arith, fits),
      )

  -- An average of 1 to 10000 periods of `d` microseconds that is started at `t0`: when values are put
  -- before `t0 + d` and after `t0`, rd_avg of the current period returns their sum modulo 2 ^ 64,
  -- their maximum and minimum, and the rate of the sum over the time from the start to the last value.
  pub avg-put_all :
      (n d : ℕ) (interval : ℤ) (t0 clock : ℕ) (x : Sample) (xs : List Sample)
      → 0 < n
      → n ≤ 10000
      → t0 + d < 2 ^ 64
      → All (λ s. (t0 < s.1) × (s.1 < t0 + d)) (x ∷ xs)
      → (ra : Avg D) × ((started zero_dbl per_second (pos n) (pos d) interval t0 >>= λ ra.
            put_all ra (x ∷ xs) >>= λ ra'. avg zero_dbl per_second ra' (negsuc 0) clock)
          ≡ ok (
            ra,
            record {
              dbl = per_second (total (x ∷ xs) % 2 ^ 64) (last_time x.1 xs - t0);
              sum = total (x ∷ xs) % 2 ^ 64;
              high = largest (x ∷ xs);
              low = smallest (x ∷ xs);
            },
          ))
  avg-put_all n d interval t0 clock x xs some_periods few fits times =
      let (ra, run, v, type, here, from, till) =
        started-rate n d interval t0 some_periods few fits in
      let (ring, puts, there, v') =
        put_all-early ra (fresh zero_dbl per_second) (x ∷ xs) v type here (
          All-imp (λ s. (t0 < s.1) × (s.1 < t0 + d)) (λ s. s.1 < ra.end) (x ∷ xs)
            (λ s k. omega (arith, k.1, till)) times) in
      let ra1 : Avg D = record ra { period = ring } in
      let p = added_all (fresh zero_dbl per_second) (x ∷ xs) in
      let q = timed ra1 p clock in
      let between = last_time-between t0 (t0 + d) x.1 xs times.0.0 times.0.1 times.1 in
      let last = added_all-last (fresh zero_dbl per_second) (x ∷ xs) in
      let busy : (p.last == 0) ≡ false = ground (arith, between.0, last) in
      let when : last_or p.last clock ≡ p.last = rw busy refl in
      let span : q.duration ≡ last_time x.1 xs - t0 =
        omega (arith, when, last, between.0, between.1, fits, from) in
      let not_zero : (q.duration == 0) ≡ false = ground (arith, span, between.0) in
      let cnt =
        added_all-cnt (fresh zero_dbl per_second) (x ∷ xs) (omega arith) ∙ plain (total (x ∷ xs)) in
      let high = added_all-high (fresh zero_dbl per_second) (x ∷ xs) ∙ above (largest (x ∷ xs)) in
      let low = added_all-low (fresh zero_dbl per_second) (x ∷ xs) (omega arith) ∙ below (x ∷ xs) in
      let done = ap (λ t. calc zero_dbl per_second t q) type ∙ calc-rate q not_zero in
      (
        put_period ra1 ra.curri (calc zero_dbl per_second ra.type q),
        (λ i. run i >>= λ ra.
              put_all ra (x ∷ xs) >>= λ ra'. avg zero_dbl per_second ra' (negsuc 0) clock)
            ∙ (λ i. puts i >>= λ ra'. avg zero_dbl per_second ra' (negsuc 0) clock)
            ∙ avg-curr zero_dbl per_second ra1 p clock v' there
            ∙ (λ i. ok (put_period ra1 ra.curri (calc zero_dbl per_second ra.type q), (done i).res))
            ∙ (λ i. ok (
              put_period ra1 ra.curri (calc zero_dbl per_second ra.type q),
              record { dbl = per_second (cnt i) (span i); sum = cnt i; high = high i; low = low i },
            )),
      )
    where
      plain : (m : ℕ) → (0 + m) % 2 ^ 64 ≡ m % 2 ^ 64
      plain m = omega arith

      above : (m : ℕ) → max 0 m ≡ m
      above m = omega arith

      below : (ys : List Sample) → min no_value (smallest ys) ≡ smallest ys
      below ys = omega (arith, smallest-le ys)
