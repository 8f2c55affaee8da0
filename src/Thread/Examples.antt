-- ===== src/Thread/Examples.antt =====
-- What rd_threads_create returns where all threads start, and where one of three does not.
use librd.Common.{ℕ, ◌≡◌, refl, Bool, true, not, ◌==◌}
use librd.Common.Int.{pos, negsuc}
use librd.Thread.{threads_create, create_loop}

abbrev all_start : ℕ → Bool
all_start i = true

abbrev second_fails : ℕ → Bool
second_fails i = not (i == 1)

three_started : threads_create all_start 3 ≡ negsuc 0
unfolding threads_create create_loop
three_started = refl

two_started : threads_create second_fails 3 ≡ pos 1
unfolding threads_create create_loop
two_started = refl
