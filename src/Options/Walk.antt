-- ===== src/Options/Walk.antt =====
-- How rd_opt_parse goes over the arguments: which options they name, and where the next one is read.
use librd.Common.{
  ℕ, ◌+◌, ◌≤◌, ◌≡◌, refl, Bool, true, false, not, ◌&&◌, Option, some, List, [], ◌∷◌, get_elem?,
  ◌==◌,
}
use librd.Common.Run.{ok}
use librd.Options.{Text, is_none, text_eq, Opt}
use librd.Options.Parse.{matched, find_arg, help_text}
use librd.Options.Groups.{clash}
use librd.Options.Steps.{IsNext}

-- The argument at `i` has a dash, is not `--help`, and names the option `ro` at place `roi`, with a
-- value exactly if the option takes one; `newi` is the argument that has it.
abbrev pub IsNamed : List Opt → List Text → ℕ → ℕ → Opt → Option Text → ℕ → Type 0
IsNamed ros argv i roi ro val newi =
    (d : ℕ) × (s : Text) × (get_elem? argv i ≡ some (d ∷ s))
    × ((d == b'-') ≡ true)
    × (text_eq (d ∷ s) help_text ≡ false)
    × (find_arg ros argv i (d ∷ s) ≡ ok (matched roi ro val newi))
    × ((ro.argcnt == 0) ≡ is_none val)

-- All the arguments from the first up to `i` were read, one after another: an empty one is skipped,
-- and behind one that names an option the next is the one behind its value, or behind what its parser
-- read. `seen` has the places of all the options named, the last one first.
pub data IsWalk (ros : List Opt) (argv : List Text) : ℕ → List ℕ → Type 0 where
  begun : IsWalk ros argv 1 []
  skipped :
      (i : ℕ) (seen : List ℕ)
      → IsWalk ros argv i seen
      → get_elem? argv i ≡ some []
      → IsWalk ros argv (i + 1) seen
  took :
      (i roi newi j : ℕ) (ro : Opt) (val : Option Text) (seen : List ℕ)
      → IsWalk ros argv i seen
      → IsNamed ros argv i roi ro val newi
      → newi ≤ j
      → IsNext ro.parse argv newi j
      → IsWalk ros argv (j + 1) (roi ∷ seen)

-- the two tests of the value against the number of arguments
pub value-argcnt : (a b : Bool) → (a && not b) ≡ false → (not a && b) ≡ false → a ≡ b
value-argcnt true true e k = refl
value-argcnt true false e k = absurd (clash e)
value-argcnt false true e k = absurd (clash k)
value-argcnt false false e k = refl
