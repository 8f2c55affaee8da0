-- ===== src/Options.antt =====
-- rdopt.c and rdopt.h: options of a command line. A text is the list of its bytes, without the zero
-- behind it; an error message is a value with what the message names.
pub mod Parse
pub mod Found
pub mod Groups
pub mod Steps
pub mod Walk
pub mod Sound
pub mod Required
mod Examples
use librd.Common.{
  ℕ, zero, suc, ◌+◌, Bool, true, false, not, ◌&&◌, Option, none, some, List, [], ◌∷◌, get_elem?,
  set, drop, ◌==◌, ltb, if◌then◌else◌, bit_and,
}
use librd.Common.Int.{ℤ, pos, negsuc}
use librd.Common.Run.{Run, ok, fault, ◌>>=◌}

abbrev pub Text : Type 0
Text = List ℕ

-- `*(s + i)`; the byte behind the text is 0
abbrev pub char_at : Text → ℕ → Run ℕ
char_at [] zero = ok 0
char_at [] (suc i) = fault
char_at (c ∷ s) zero = ok c
char_at (c ∷ s) (suc i) = char_at s i

-- `!strcmp(s, t)`
abbrev pub text_eq : Text → Text → Bool
text_eq [] [] = true
text_eq [] (d ∷ t) = false
text_eq (c ∷ s) [] = false
text_eq (c ∷ s) (d ∷ t) = (c == d) && text_eq s t

-- `strchr(s, '=') + 1`
abbrev pub after_equals : Text → Option Text
after_equals [] = none
after_equals (c ∷ s) = if c == b'=' then some s else after_equals s

-- `BIT_TEST(type, bits)`
abbrev pub has_bits : ℕ → ℕ → Bool
has_bits type bits = not (bit_and type bits == 0)

abbrev pub is_none {ℓ} : {A : Type ℓ} → Option A → Bool
is_none none = true
is_none (some x) = false

-- what an option's variable holds: an `int`, or a pointer into `argv`
pub data Value : Type 0 where
  unset : Value
  int : ℤ → Value
  text : Text → Value

-- the messages that rd_opt_parse and rd_opt_parse_assign return; options by their places in the table
pub data OptError : Type 0 where
  help : OptError
  unexpected_args missing_args int_required bad_path arg_required : ℕ → OptError
  exclusive : ℕ → ℕ → OptError
  unknown_option custom : Text → OptError
  required_missing : List ℕ → OptError

-- `rd_opt_parse_f`: from the variables, `argv` and `*argip`, the variables, `*argip` and the message
abbrev pub Parser : Type 0
Parser = List Value → List Text → ℕ → List Value × ℕ × Option Text

-- `rd_opt_t`; `ro_opaque` is the place of a variable, or NULL
pub record Opt : Type 0 where
  pub type : ℕ
  pub short : ℕ
  pub long : Option Text
  pub argcnt : ℕ
  pub opaque : Option ℕ
  pub parse : Option Parser

abbrev pub arg_at : List Text → ℕ → Run Text
arg_at argv i = elim (get_elem? argv i) [ none ↦ fault | some t ↦ ok t ]

-- `if (opaque) *opaque = v`
abbrev pub store : Option ℕ → Value → List Value → List Value
store none v vars = vars
store (some o) v vars = set vars o v

-- `!v` and `!!v`
abbrev pub is_zero : ℤ → Bool
is_zero (pos zero) = true
is_zero (pos (suc n)) = false
is_zero (negsuc n) = false

abbrev pub to_bool : ℤ → ℤ
to_bool v = if is_zero v then pos 0 else pos 1

-- `strtol` as an `int`, with the number of characters that it read, and whether `stat` finds a path
module _ (strtol : Text → ℤ × ℕ) (exists : Text → Bool) where
  -- the branch of rd_opt_parse_assign for a number or a truth value
  unfoldable pub assign_int : Opt → ℕ → List Value → Text → List Value × Option OptError
  assign_int ro roi vars arg =
      let (v, read) = strtol arg in
      let w = if has_bits ro.type 0x8000 then to_bool v else v in
      if is_zero v && (read == 0)
      then (vars, some (int_required roi))
      else (store ro.opaque (int w) vars, none)

  -- rd_opt_parse_assign for the option at place `roi`
  unfoldable pub assign : Opt → ℕ → List Value → List Text → ℕ → Run (List Value × Option OptError)
  unfolding assign_int
  assign ro roi vars argv argi =
      let flagged = if has_bits ro.type 0xa000 then store ro.opaque (int (pos 1)) vars else vars in
      let number = arg_at argv argi >>= λ arg. ok (assign_int ro roi vars arg) in
      let path = arg_at argv argi >>= λ arg. ok (
        if exists arg
        then (store ro.opaque (text arg) vars, none)
        else (vars, some (bad_path roi))) in
      let string = arg_at argv argi >>= λ arg. elim arg [
        | [] ↦ ok (vars, some (arg_required roi))
        | c ∷ s ↦ ok (store ro.opaque (text (c ∷ s)) vars, none)
      ] in
      if ro.argcnt == 0
      then ok (flagged, none)
      else if has_bits ro.type 0xa000
      then number
      else if has_bits ro.type 0x4000
      then path
      else if has_bits ro.type 0x1000
      then string
      else ok (vars, none)
