-- ===== src/Avg.antt =====
-- rdavg.c and rdavg.h: averages over a ring of periods. Functions that read the clock take the time
-- that it returns. `double` is a type `D` with the operations that rd_avg_calc uses.

pub mod Put
pub mod Sum
pub mod Ring
pub mod Rate
pub mod Roll
mod Examples
use librd.Common.{
  ℕ, zero, suc, ◌+◌, ◌-◌, ◌/◌, ◌%◌, ◌^◌, Bool, true, false, ◌&&◌, ◌||◌, Option, none, some, List,
  [], ◌∷◌, ◌++◌, get_elem?, set, replicate, ltb, leb, ◌==◌, if◌then◌else◌,
}
use librd.Common.Int.{ℤ, pos, negsuc}
use librd.Common.Run.{Run, ok, fault, ◌>>=◌}

pub data AvgType : Type 0 where
  rate : AvgType
  hist : AvgType

-- RD_AVG_NO_VALUE
abbrev pub no_value : ℕ
no_value = 2 ^ 64 - 1

-- an `int` where a `uint64_t` is wanted
abbrev pub as_u64 : ℤ → ℕ
as_u64 (pos n) = n
as_u64 (negsuc n) = 2 ^ 64 - (n + 1)

-- `p->last ? : now`
abbrev pub last_or : ℕ → ℕ → ℕ
last_or last now = if last == 0 then now else last

-- `rd_avg_res_t`
pub record Res (D : Type 0) : Type 0 where
  pub dbl : D
  pub sum : ℕ
  pub high : ℕ
  pub low : ℕ

-- `rd_avg_period_t`; of the union, `cnt` is for a rate and `bucket` for a histogram
pub record Period (D : Type 0) : Type 0 where
  pub last : ℕ
  pub duration : ℕ
  pub closed : ℕ
  pub missed : ℕ
  pub cnt : ℕ
  pub bucket : Option (List ℕ)
  pub res : Res D

-- `rd_avg_t`; `curr` is the place to which `ra_curr` points, and `roll_cb` says whether `ra_roll_cb`
-- is set. `rolled` has the periods for which it was called, which does not change the average.
pub record Avg (D : Type 0) : Type 0 where
  pub type : AvgType
  pub curr : Option ℕ
  pub periods : ℕ
  pub period : List (Period D)
  pub curri : ℕ
  pub duration : ℤ
  pub start : ℕ
  pub end : ℕ
  pub interval : ℤ
  pub buckets : ℕ
  pub val2bucket : ℕ → ℕ → ℤ
  pub roll_cb : Bool
  pub rolled : List ℕ

-- `p == ra->ra_curr`
abbrev pub is_curr : Option ℕ → ℕ → Bool
is_curr none i = false
is_curr (some j) i = j == i

module _ {D : Type 0} where
  -- `ra->ra_period[i]`, and a write to it
  abbrev pub period_at : Avg D → ℕ → Run (Period D)
  period_at ra i = elim (get_elem? ra.period i) [ none ↦ fault | some p ↦ ok p ]

  abbrev pub put_period : Avg D → ℕ → Period D → Avg D
  put_period ra i p = record ra { period = set ra.period i p }

  -- `ra->ra_curr`
  abbrev pub curr_at : Avg D → Run ℕ
  curr_at ra = elim ra.curr [ none ↦ fault | some i ↦ ok i ]

  -- the place that the argument of rd_avg names; what is no place is a `fault`
  unfoldable pub which : Avg D → ℤ → Run ℕ
  which ra (pos n) = ok n
  which ra (negsuc zero) = ok ra.curri
  which ra (negsuc (suc zero)) =
      if ra.curri == 0 then ok (ra.periods - 1) else ok ((ra.curri - 1) % ra.periods)
  which ra (negsuc (suc (suc n))) = fault

  -- rd_avg_put_rate
  unfoldable pub put_rate : Avg D → ℕ → Run (Avg D)
  put_rate ra val = curr_at ra >>= λ i.
      period_at ra i >>= λ p. ok (put_period ra i (record p { cnt = (p.cnt + val) % 2 ^ 64 }))

  -- rd_avg_put_hist
  abbrev pub count_bucket : Period D → List ℕ → ℕ → Run (Period D)
  count_bucket p bs b = elim (get_elem? bs b) [
    | none ↦ fault
    | some n ↦ ok (record p { bucket = some (set bs b ((n + 1) % 2 ^ 64)) })
  ]

  abbrev pub in_bucket : Period D → ℤ → Run (Period D)
  in_bucket p (pos b) = elim p.bucket [ none ↦ fault | some bs ↦ count_bucket p bs b ]
  in_bucket p (negsuc zero) = ok p
  in_bucket p (negsuc (suc b)) = fault

  unfoldable pub put_hist : Avg D → ℕ → Run (Avg D)
  put_hist ra val = curr_at ra >>= λ i. period_at ra i >>= λ p.
      in_bucket p (ra.val2bucket val ra.buckets) >>= λ p'. ok (put_period ra i p')

  -- the period with the time and the extremes of the new value
  abbrev pub noted : Period D → ℕ → ℕ → Period D
  noted p val now = record p {
    last = now;
    res = record p.res {
      high = if ltb p.res.high val then val else p.res.high;
      low = if ltb val p.res.low then val else p.res.low;
    };
  }

  -- what rd_avg_put does in the current period
  unfoldable pub put_value : Avg D → ℕ → ℕ → Run (Avg D)
  put_value ra val now = curr_at ra >>= λ i. period_at ra i >>= λ p.
      let ra' = put_period ra i (noted p val now) in
      elim ra'.type [ rate ↦ put_rate ra' val | hist ↦ put_hist ra' val ]

-- rd_avg_roll_callback_set
unfoldable pub roll_callback_set : {D : Type 0} → Avg D → Bool → Avg D
roll_callback_set ra given = record ra { roll_cb = given }

-- `per_second cnt duration` is `((double)cnt / (double)duration) * 1000000.0f`
module _ {D : Type 0} (zero_dbl : D) (per_second : ℕ → ℕ → D) where
  -- what memset and calloc leave
  abbrev pub zero_res : Res D
  zero_res = record { dbl = zero_dbl; sum = 0; high = 0; low = 0 }

  abbrev pub zero_period : Period D
  zero_period = record {
    last = 0;
    duration = 0;
    closed = 0;
    missed = 0;
    cnt = 0;
    bucket = none;
    res = zero_res;
  }

  -- rd_avg_new
  unfoldable pub avg_new : AvgType → ℕ → ℤ → Avg D
  avg_new type periods duration = record {
    type = type;
    curr = none;
    periods = periods;
    period = [];
    curri = 0;
    duration = duration;
    start = 0;
    end = 0;
    interval = pos 0;
    buckets = 0;
    val2bucket = λ val n. negsuc 0;
    roll_cb = false;
    rolled = [];
  }

  -- rd_avg_new_rate
  unfoldable pub avg_new_rate : ℤ → ℤ → ℤ → Option (Avg D)
  unfolding avg_new
  avg_new_rate (negsuc n) duration interval = none
  avg_new_rate (pos n) duration interval =
      if (n == 0) || ltb 10000 n
      then none
      else some (record (avg_new rate n duration) {
        interval = interval;
        period = replicate n zero_period;
      })

  -- rd_avg_calc, on the period
  unfoldable pub calc : AvgType → Period D → Period D
  calc type p =
      let averaged : Period D = elim type [
        | rate ↦ record p {
          res = record {
            dbl = per_second p.cnt p.duration;
            sum = p.cnt;
            high = p.res.high;
            low = p.res.low;
          };
        }
        | hist ↦ record p { res = zero_res }
      ] in
      if p.duration == 0 then record p { res = zero_res } else averaged

  -- rd_avg
  unfoldable pub avg : Avg D → ℤ → ℕ → Run (Avg D × Res D)
  unfolding which
  avg ra period clock = which ra period >>= λ i. period_at ra i >>= λ p.
      let timed =
        if is_curr ra.curr i
        then record p { duration = (last_or p.last clock + 2 ^ 64 - ra.start) % 2 ^ 64 }
        else p in
      let done = calc ra.type timed in ok (put_period ra i done, done.res)

  -- rd_avg_period_next; a write beyond the ring, or a division by 0, is a `fault`
  unfoldable pub period_next : Avg D → ℕ → Run (Avg D)
  period_next ra now =
      let i = (ra.curri + 1) % ra.periods in
      let next = record ra {
        curri = i;
        curr = some i;
        start = now;
        end = (now + as_u64 ra.duration) % 2 ^ 64;
        period = set ra.period i (record zero_period {
          res = record { dbl = zero_dbl; sum = 0; high = 0; low = no_value };
        });
      } in
      let there = period_at ra i >>= λ p. ok next in if ra.periods == 0 then fault else there

  -- rd_avg_start
  unfoldable pub avg_start : Avg D → ℕ → Run (Avg D)
  unfolding period_next
  avg_start ra clock = period_next ra clock

  -- rd_avg_roll; `missed` is the 32 bits of an `int`
  unfoldable pub roll : Avg D → ℕ → Run (Avg D)
  roll ra now = curr_at ra >>= λ i. period_at ra i >>= λ p.
      let closed = record p {
        closed = now;
        duration = (last_or p.last now + 2 ^ 64 - ra.start) % 2 ^ 64;
      } in
      let missed = (now + 2 ^ 64 - ra.end) % 2 ^ 64 / as_u64 ra.duration % 2 ^ 32 in
      let done = record (calc ra.type closed) { missed = missed } in
      let called = if ra.roll_cb then ra.rolled ++ ra.curri ∷ [] else ra.rolled in
      let next = period_next (record (put_period ra i done) { rolled = called }) now in
      if as_u64 ra.duration == 0 then fault else next

  -- rd_avg_put
  unfoldable pub avg_put : Avg D → ℕ → ℕ → Run (Avg D)
  avg_put ra val now =
      let rolled = roll ra now in
      (if leb ra.end now then rolled else ok ra) >>= λ ra'. put_value ra' val now
