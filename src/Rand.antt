-- ===== src/Rand.antt =====
-- rdrand.c and rdrand.h: rd_jitter and the shuffle of an array. What rand() returns is an argument: in
-- the shuffle, `draw i` is what it returns in the round of index `i`. An array is the list of its
-- entries.
pub mod Shuffle
mod Examples
use librd.Common.{
  ℕ, zero, suc, ◌+◌, ◌-◌, ◌%◌, Option, none, some, List, get_elem?, length, set, ◌==◌,
  if◌then◌else◌,
}
use librd.Common.Run.{Run, ok, fault, ◌>>=◌}

-- rd_jitter, for bounds that are not negative
unfoldable pub jitter : ℕ → ℕ → ℕ → ℕ
jitter low high random = low + random % (high + 1)

module _ {ℓ} {A : Type ℓ} where
  -- an entry of the array; beyond it is a `fault`
  abbrev pub entry_at : List A → ℕ → Run A
  entry_at xs i = elim (get_elem? xs i) [ none ↦ fault | some a ↦ ok a ]

  -- the three calls of memcpy
  abbrev pub swap_entries : List A → ℕ → ℕ → Run (List A)
  swap_entries xs i j = entry_at xs i >>= λ tmp.
      entry_at xs j >>= λ b. entry_at (set xs i b) j >>= λ c. ok (set (set xs i b) j tmp)

  -- the loop of rd_array_shuffle from the index `i` down
  unfoldable pub shuffle_loop : ℕ → (ℕ → ℕ) → List A → Run (List A)
  unfolding jitter
  shuffle_loop zero draw xs = ok xs
  shuffle_loop (suc i) draw xs =
      let j = jitter 0 (i + 1) (draw (i + 1)) in
      (if i + 1 == j then ok xs else swap_entries xs (i + 1) j) >>= shuffle_loop i draw

  -- rd_array_shuffle
  unfoldable pub array_shuffle : (ℕ → ℕ) → List A → Run (List A)
  unfolding shuffle_loop
  array_shuffle draw xs = shuffle_loop (length xs - 1) draw xs
