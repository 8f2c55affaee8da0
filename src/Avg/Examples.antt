-- ===== src/Avg/Examples.antt =====
-- Averages that the theorems apply to, with whole numbers for `double`.
use librd.Common.{
  true, ℕ, ◌-◌, ◌*◌, ◌/◌, ◌%◌, ◌^◌, ◌≡◌, refl, arith, none, some, List, [], ◌∷◌, ◌++◌, get_elem?,
}
use librd.Common.Int.{pos, negsuc}
use librd.Common.Run.{Run, ok, fault, ◌>>=◌}
use librd.Avg.{
  AvgType, Res, Period, Avg, no_value, avg_put, avg, calc, roll, put_value, put_rate, avg_new,
}
use librd.Avg.Put.{IsAvg, added}
use librd.Avg.Sum.{Sample, total, largest, smallest, last_time}
use librd.Avg.Ring.{fresh, started}
use librd.Avg.Rate.{put_all, avg-put_all}
use librd.Avg.Roll.{avg_put-rolls}

abbrev per_second : ℕ → ℕ → ℕ
per_second cnt duration = cnt * 1_000_000 / duration

abbrev samples : List Sample
samples = (2, 200) ∷ (9, 400) ∷ []

avg-put_all_example :
    (ra : Avg ℕ) × ((started 0 per_second (pos 3) (pos 1000) (pos 0) 100 >>= λ ra.
    put_all 0 per_second ra ((5, 150) ∷ samples) >>= λ ra'. avg 0 per_second ra' (negsuc 0) 500)
      ≡ ok (
        ra,
        record {
          dbl = per_second (total ((5, 150) ∷ samples) % 2 ^ 64) (last_time 150 samples - 100);
          sum = total ((5, 150) ∷ samples) % 2 ^ 64;
          high = largest ((5, 150) ∷ samples);
          low = smallest ((5, 150) ∷ samples);
        },
      ))
avg-put_all_example =
    avg-put_all 0 per_second 3 1000 (pos 0) 100 500 (5, 150) samples (omega arith) (omega arith)
      (omega arith)
      ((omega arith, omega arith), ((omega arith, omega arith), ((omega arith, omega arith), tt)))

-- two periods, the second of them open, with a sum of 16
abbrev opened : Period ℕ
opened = record {
  last = 400;
  duration = 0;
  closed = 0;
  missed = 0;
  cnt = 16;
  bucket = none;
  res = record { dbl = 0; sum = 0; high = 9; low = 2 };
}

abbrev running : Avg ℕ
running = record {
  type = AvgType.rate;
  curr = some 1;
  periods = 2;
  period = fresh 0 per_second ∷ opened ∷ [];
  curri = 1;
  duration = pos 1000;
  start = 100;
  end = 1100;
  interval = pos 0;
  buckets = 0;
  val2bucket = λ val n. negsuc 0;
  roll_cb = true;
  rolled = [];
}

running-IsAvg : IsAvg running
running-IsAvg = record { size = refl; bound = omega arith; curr = refl }

avg_put-rolls_example :
    (ra' : Avg ℕ) × (before : Avg ℕ) × (after : Avg ℕ) × (r : Res ℕ) × (avg_put 0 per_second running
        7 1200
      ≡ ok ra')
    × IsAvg ra'
    × (ra'.start ≡ 1200)
    × (ra'.rolled ≡ [] ++ 1 ∷ [])
    × (get_elem? ra'.period ra'.curri ≡ some (added (fresh 0 per_second) 7 1200))
    × (avg 0 per_second running (negsuc 0) 1200 ≡ ok (before, r))
    × (avg 0 per_second ra' (negsuc 1) 1300 ≡ ok (after, r))
avg_put-rolls_example =
    avg_put-rolls 0 per_second running 7 1200 1300 running-IsAvg refl (omega arith) (omega arith)
      (omega arith)

-- an average that was not started: `ra_end` is 0, and the period that is to be closed is NULL
not_started : avg_put 0 per_second (avg_new 0 per_second AvgType.rate 2 (pos 1000)) 7 1200 ≡ fault
unfolding avg_put roll avg_new put_value
not_started = refl

-- rd_avg at the start of a period sets its minimum to 0, which no value undercuts afterwards
abbrev low_of : Run (Avg ℕ × Res ℕ) → ℕ
low_of (ok (ra, r)) = r.low
low_of _ = no_value

early_query :
    low_of (
      avg 0 per_second
        (record running { period = fresh 0 per_second ∷ fresh 0 per_second ∷ [] })
        (negsuc 0)
        100
      >>= λ (ra, r). avg_put 0 per_second ra 7 200 >>= λ ra'. avg 0 per_second ra' (negsuc 0) 300)
    ≡ 0
unfolding avg avg_put calc put_value put_rate
early_query = refl
