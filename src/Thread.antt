-- ===== src/Thread.antt =====
-- rd_threads_create of rdthread.c. What pthread_create returns for each thread is an argument.
mod Examples
use librd.Common.{
  ℕ, zero, suc, ◌+◌, ◌-◌, ◌≡◌, refl, arith, Bool, true, false, leb, ◌==◌, if◌then◌else◌,
}
use librd.Common.Int.{ℤ, pos, negsuc}

-- the return value of rd_thread_create, where `starts` says whether pthread_create succeeds
abbrev pub thread_create : Bool → ℤ
thread_create starts = if starts then pos 0 else negsuc 0

-- `!r`
abbrev pub is_success : ℤ → Bool
is_success (pos n) = n == 0
is_success (negsuc n) = false

-- the loop of rd_threads_create: `failed` after the threads from `i` on, `n` of them
unfoldable pub create_loop : (ℕ → Bool) → ℕ → ℕ → ℕ → ℕ
create_loop starts zero i failed = failed
create_loop starts (suc n) i failed =
    create_loop starts n (i + 1)
      (if is_success (thread_create (starts i)) then failed + 1 else failed)

-- rd_threads_create, for a number of threads that is not negative
unfoldable pub threads_create : (ℕ → Bool) → ℕ → ℤ
unfolding create_loop
threads_create starts threadcount =
    let failed = create_loop starts threadcount 0 0 in
    if leb 1000 threadcount
    then negsuc 0
    else if failed == threadcount
    then negsuc 0
    else pos (threadcount - failed)

-- the threads that start
abbrev started_count : (ℕ → Bool) → ℕ → ℕ → ℕ
started_count starts zero i = 0
started_count starts (suc n) i =
    let rest = started_count starts n (i + 1) in if starts i then rest + 1 else rest

-- The counter `failed` has the threads that start.
create_loop-started_count :
    (starts : ℕ → Bool) (n i failed : ℕ)
    → create_loop starts n i failed ≡ failed + started_count starts n i
unfolding create_loop
create_loop-started_count starts zero i failed = omega arith
create_loop-started_count starts (suc n) i failed =
    counted (starts i) (create_loop-started_count starts n (i + 1))
  where
    counted :
        (b : Bool)
        → ((f : ℕ) → create_loop starts n (i + 1) f ≡ f + started_count starts n (i + 1))
        → create_loop starts n (i + 1) (if is_success (thread_create b) then failed + 1 else failed)
          ≡ failed
            + (if b then started_count starts n (i + 1) + 1 else started_count starts n (i + 1))
    counted true rest = let r = rest (failed + 1) in omega (arith, r)
    counted false rest = rest failed
