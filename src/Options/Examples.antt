-- ===== src/Options/Examples.antt =====
-- Command lines that the theorems apply to, and some that show what rd_opt_parse does.
use librd.Common.{
  ℕ, ◌-◌, ◌≡◌, refl, Bool, false, Option, none, some, List, [], ◌∷◌, ◌++◌, leb, if◌then◌else◌, ◌&&◌,
}
use librd.Common.Int.{ℤ, pos}
use librd.Common.Run.{Run, ok, fault}
use librd.Bitvec.{init, op}
use librd.Options.{Text, Value, int, unset, assign, Opt, OptError}
use librd.Options.Parse.{Parsed, parsed, rejected, opt_parse, opt_get}

-- a reader of numbers of one digit, and a file system with no file
abbrev one_digit : Text → ℤ × ℕ
one_digit [] = (pos 0, 0)
one_digit (c ∷ s) = if leb b'0' c && leb c b'9' then (pos (c - b'0'), 1) else (pos 0, 0)

abbrev no_file : Text → Bool
no_file path = false

abbrev option : ℕ → ℕ → ℕ → Option ℕ → Opt
option type short argcnt opaque = record {
  type = type;
  short = short;
  long = none;
  argcnt = argcnt;
  opaque = opaque;
  parse = none;
}

-- `-r` is required, and `-n` takes a number
abbrev options : List Opt
options = option 2 b'r' 0 none ∷ option 0x2000 b'n' 1 (some 0) ∷ []

abbrev end : Opt
end = option 1 0 0 none

abbrev table : List Opt
table = options ++ end ∷ []

abbrev dash : ℕ → Text
dash c = b'-' ∷ c ∷ []

-- `prog -n 7 -r file`
abbrev argv : List Text
argv = (b'p' ∷ []) ∷ dash b'n' ∷ (b'7' ∷ []) ∷ dash b'r' ∷ (b'f' ∷ []) ∷ []

abbrev vars : List Value
vars = unset ∷ []

-- the variable after a run
abbrev vars_of : Run Parsed → List Value
vars_of (ok (parsed st argi)) = st.vars
vars_of _ = []

abbrev error_of : Run Parsed → Option OptError
error_of (ok (rejected st e)) = some e
error_of _ = none

accepted : opt_get one_digit no_file table argv vars ≡ ok (1, some 4)
unfolding opt_get init op assign
accepted = refl

assigned : vars_of (opt_parse one_digit no_file table argv vars) ≡ int (pos 7) ∷ []
unfolding opt_parse init op assign
assigned = refl

-- A value in the same argument, `-n7`, is accepted as one; the parser is given the whole argument.
attached :
    error_of (opt_parse one_digit no_file table ((b'p' ∷ []) ∷ (b'-' ∷ b'n' ∷ b'7' ∷ []) ∷ []) vars)
    ≡ some (OptError.int_required 1)
unfolding opt_parse init op assign
attached = refl

-- A single dash is read behind its end.
single_dash : opt_parse one_digit no_file table ((b'p' ∷ []) ∷ (b'-' ∷ []) ∷ []) vars ≡ fault
unfolding opt_parse init op assign
single_dash = refl

-- An option of the fourth group is looked up behind the end of `mutro`.
fourth_group :
    opt_parse one_digit no_file
      (option 0x80 b'r' 0 none ∷ end ∷ [])
      ((b'p' ∷ []) ∷ dash b'r' ∷ [])
      vars
    ≡ fault
unfolding opt_parse init op assign
fourth_group = refl

-- `--n=7` is compared with the name as a whole.
abbrev long_table : List Opt
long_table =
    record end { type = 0x2000; long = some (b'n' ∷ []); argcnt = 1; opaque = some 0 } ∷ end ∷ []

abbrev with_equals : Text
with_equals = b'-' ∷ b'-' ∷ b'n' ∷ b'=' ∷ b'7' ∷ []

equals_unknown :
    error_of (opt_parse one_digit no_file long_table ((b'p' ∷ []) ∷ with_equals ∷ []) vars)
    ≡ some (OptError.unknown_option with_equals)
unfolding opt_parse init op assign
equals_unknown = refl
