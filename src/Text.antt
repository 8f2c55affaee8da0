-- ===== src/Text.antt =====
-- rdstring.c: searches in strings. A string is the bytes from its address on, up to the end of its
-- memory; `none` for a size stands for -1.
pub mod Span
pub mod Format
pub mod Keep
pub mod Diff
mod Examples
use librd.Common.{
  ℕ, zero, suc, ◌+◌, ◌-◌, Bool, true, false, ◌&&◌, not, Option, none, some, List, [], ◌∷◌, get_or,
  set, replicate, leb, ltb, ◌==◌, if◌then◌else◌,
}
use librd.Common.Run.{Run, ok, fault, ◌>>=◌}

-- `size == -1 || s < end`
abbrev pub goes_on : Option ℕ → Bool
goes_on none = true
goes_on (some zero) = false
goes_on (some (suc n)) = true

-- the size that is left after `s++`
abbrev pub one_less : Option ℕ → Option ℕ
one_less none = none
one_less (some n) = some (n - 1)

-- `map[(int)*s]`, where the C compiler decides whether `char` is signed: a negative index is out of
-- bounds
module _ (char_signed : Bool) where
  abbrev pub char_index : ℕ → Run ℕ
  char_index c = if char_signed && leb 128 c then fault else ok c

  -- `while (*accept) map[(int)*accept++] = 1`
  unfoldable pub fill_map : List ℕ → List ℕ → Run (List ℕ)
  fill_map [] map = fault
  fill_map (c ∷ s) map = if c == 0 then ok map else (char_index c >>= λ i. fill_map s (set map i 1))

  -- rd_strnspn_map, with `cnt`
  unfoldable pub strnspn_map : List ℕ → Option ℕ → ℕ → List ℕ → ℕ → Run ℕ
  strnspn_map [] size accept map cnt = if goes_on size then fault else ok cnt
  strnspn_map (c ∷ s) size accept map cnt =
      let next = strnspn_map s (one_less size) accept map (cnt + 1) in
      if not (goes_on size)
      then ok cnt
      else if c == 0
      then ok cnt
      else (char_index c >>= λ i. if get_or map i 0 == accept then next else ok cnt)

  -- rd_strnspn
  unfoldable pub strnspn : List ℕ → Option ℕ → List ℕ → Run ℕ
  unfolding fill_map strnspn_map
  strnspn s size accept = fill_map accept (replicate 256 0) >>= λ map. strnspn_map s size 1 map 0

  -- rd_strncspn
  unfoldable pub strncspn : List ℕ → Option ℕ → List ℕ → Run ℕ
  unfolding fill_map strnspn_map
  strncspn s size reject = fill_map reject (replicate 256 0) >>= λ map. strnspn_map s size 0 map 0

  -- the second loop of rd_strnchrs, which reads `map` at the unsigned byte: the position in the
  -- string, or `none` for NULL
  unfoldable pub chrs_loop : List ℕ → Option ℕ → List ℕ → Bool → ℕ → Run (Option ℕ)
  chrs_loop [] size map match_eol at =
      if goes_on size then fault else ok (if match_eol then some at else none)
  chrs_loop (c ∷ s) size map match_eol at =
      let next = chrs_loop s (one_less size) map match_eol (at + 1) in
      let over = if match_eol then some at else none in
      if not (goes_on size)
      then ok over
      else if c == 0
      then ok over
      else if get_or map c 0 == 0
      then next
      else ok (some at)

  -- rd_strnchrs
  unfoldable pub strnchrs : List ℕ → Option ℕ → List ℕ → Bool → Run (Option ℕ)
  unfolding fill_map chrs_loop
  strnchrs s size delimiters match_eol =
      fill_map delimiters (replicate 256 0) >>= λ map. chrs_loop s size map match_eol 0
