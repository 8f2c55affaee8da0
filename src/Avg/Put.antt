-- ===== src/Avg/Put.antt =====
-- rd_avg_put inside of a period, for a rate.
use librd.Common.{
  ℕ, ◌+◌, ◌%◌, ◌^◌, ◌<◌, ◌≡◌, refl, ap, ◌∙◌, none, some, length, length-set, get_elem?,
  get_elem?-set_self, set-set,
}
use librd.Common.Run.{ok, fault}
use librd.Avg.{
  AvgType, Period, Avg, noted, put_period, curr_at, period_at, put_rate, put_hist, put_value,
}

-- An average that was started.
pub record IsAvg {D : Type 0} (ra : Avg D) : Type 0 where
  pub size : length ra.period ≡ ra.periods
  pub bound : ra.curri < ra.periods
  pub curr : ra.curr ≡ some ra.curri

-- the period with one value more
abbrev pub added : {D : Type 0} → Period D → ℕ → ℕ → Period D
added p val now = record (noted p val now) { cnt = (p.cnt + val) % 2 ^ 64 }

pub curr_at-IsAvg : {D : Type 0} (ra : Avg D) → IsAvg ra → curr_at ra ≡ ok ra.curri
curr_at-IsAvg ra v = ap (λ c. elim c [ none ↦ fault | some i ↦ ok i ]) v.curr

pub period_at-some :
    {D : Type 0} (ra : Avg D) (i : ℕ) (p : Period D)
    → get_elem? ra.period i ≡ some p
    → period_at ra i ≡ ok p
period_at-some ra i p h = ap (λ c. elim c [ none ↦ fault | some p ↦ ok p ]) h

put_rate-some :
    {D : Type 0} (ra : Avg D) (p : Period D) (val : ℕ)
    → IsAvg ra
    → get_elem? ra.period ra.curri ≡ some p
    → put_rate ra val ≡ ok (put_period ra ra.curri (record p { cnt = (p.cnt + val) % 2 ^ 64 }))
unfolding put_rate
put_rate-some ra p val v here = rw (curr_at-IsAvg ra v, period_at-some ra ra.curri p here) refl

-- a write to the ring
pub put_period-IsAvg :
    {D : Type 0} (ra : Avg D) (i : ℕ) (p : Period D) → IsAvg ra → IsAvg (put_period ra i p)
put_period-IsAvg ra i p v = record {
  size = length-set ra.period i p ∙ v.size;
  bound = v.bound;
  curr = v.curr;
}

-- rd_avg_put in the current period, once this is found
put_value-found :
    {D : Type 0} (ra : Avg D) (p : Period D) (val now : ℕ)
    → IsAvg ra
    → get_elem? ra.period ra.curri ≡ some p
    → put_value ra val now ≡ elim ra.type [
      | AvgType.rate ↦ put_rate (put_period ra ra.curri (noted p val now)) val
      | AvgType.hist ↦ put_hist (put_period ra ra.curri (noted p val now)) val
    ]
unfolding put_value
put_value-found ra p val now v here =
    rw (curr_at-IsAvg ra v, put_value, period_at-some ra ra.curri p here) refl

pub put_value-rate :
    {D : Type 0} (ra : Avg D) (p : Period D) (val now : ℕ)
    → IsAvg ra
    → ra.type ≡ AvgType.rate
    → get_elem? ra.period ra.curri ≡ some p
    → put_value ra val now ≡ ok (put_period ra ra.curri (added p val now))
put_value-rate ra p val now v type here =
    let ra1 = put_period ra ra.curri (noted p val now) in
    let same = set-set ra.period ra.curri (noted p val now) (added p val now) in
    put_value-found ra p val now v here
    ∙ ap (λ t. elim t [ AvgType.rate ↦ put_rate ra1 val | AvgType.hist ↦ put_hist ra1 val ]) type
    ∙ put_rate-some ra1 (noted p val now) val (put_period-IsAvg ra ra.curri (noted p val now) v)
        (get_elem?-set_self ra.period ra.curri p (noted p val now) here)
    ∙ (λ i. ok (record ra { period = same i }))
