-- ===== src/Options/Parse.antt =====
-- rd_opt_parse and rd_opt_get. A table is the list of its options, the one of type RD_OPT_END last.
use librd.Common.{
  ℕ, zero, suc, ◌+◌, ◌/◌, Bool, true, false, not, ◌&&◌, Option, none, some, List, [], ◌∷◌, length,
  get_elem?, set, drop, replicate, ltb, ◌==◌, if◌then◌else◌, bit_and,
}
use librd.Common.Int.{ℤ}
use librd.Common.Run.{Run, ok, fault, out_of_fuel, ◌>>=◌}
use librd.Bitvec
use librd.Bitvec.{Bitvec, set_op, test_op}
use librd.Options.{
  Text, char_at, text_eq, after_equals, has_bits, is_none, Value, OptError, help, unexpected_args,
  missing_args, exclusive, unknown_option, custom, required_missing, Opt, arg_at, is_zero, assign,
}

-- `opts_found` and `mutro`, and the variables of the options
pub record State : Type 0 where
  pub vars : List Value
  pub mutro : List (Option ℕ)
  pub found : Bitvec

-- what the loop over the table finds: the option, its place, `val` and `newi`
pub data Found : Type 0 where
  no_match : Found
  matched : ℕ → Opt → Option Text → ℕ → Found

-- one round of the loop over `argv`
pub data Turn : Type 0 where
  go_on : State → ℕ → Turn
  stop : State → Turn
  reject : State → OptError → Turn

pub data Parsed : Type 0 where
  parsed : State → ℕ → Parsed
  rejected : State → OptError → Parsed

-- `val = argv[++newi]`, if there is another argument
abbrev pub next_arg : List Text → ℕ → Option Text → Option Text × ℕ
next_arg argv argi val =
    if ltb (argi + 1) (length argv) then (get_elem? argv (argi + 1), argi + 1) else (val, argi)

-- `val` and `newi` of a long option with the text behind a `=`, if there is one
abbrev pub long_val : Opt → Option Text → Option Text → List Text → ℕ → Option Text × ℕ
long_val ro none val argv argi =
    if not (ro.argcnt == 0) then next_arg argv argi val else (val, argi)
long_val ro (some v) val argv argi = (some v, argi)

-- the comparison of `longopt` with a long name
abbrev pub try_long : Opt → Text → Text → Option Text → List Text → ℕ → Option (Option Text × ℕ)
try_long ro l name val argv argi =
    if text_eq l name then some (long_val ro (after_equals l) val argv argi) else none

-- The tests of an option against the argument: `longopt`, the character behind the dash, and `val`.
-- There is no result for `continue`.
unfoldable pub try_option :
    Opt → Option Text → ℕ → Option Text → List Text → ℕ → Option (Option Text × ℕ)
try_option ro none c val argv argi =
    if ro.short == 0
    then none
    else if ro.short == c
    then some (if not (ro.argcnt == 0) && is_none val then next_arg argv argi val else (val, argi))
    else none
try_option ro (some l) c val argv argi = elim ro.long [
  | none ↦ none
  | some name ↦ try_long ro l name val argv argi
]

-- the loop over the table, from place `roi`; the table is left by a `fault` if nothing ends it
unfoldable pub find_option :
    List Opt → ℕ → Option Text → ℕ → Option Text → List Text → ℕ → Run Found
unfolding try_option
find_option [] roi longopt c val argv argi = fault
find_option (ro ∷ ros) roi longopt c val argv argi =
    let rest = find_option ros (suc roi) longopt c val argv argi in
    let tried = try_option ro longopt c val argv argi in
    let here : Run Found = elim tried [
      | none ↦ rest
      | some (v, newi) ↦ ok (matched roi ro v newi)
    ] in
    if ro.type == 1 then ok no_match else here

-- the option that an argument behind a dash names: `-c`, `-cvalue` or `--long`
unfoldable pub find_arg : List Opt → List Text → ℕ → Text → Run Found
unfolding find_option
find_arg ros argv argi arg =
    let short = λ (c : ℕ). char_at arg 2 >>= λ c2.
    find_option ros 0 none c (if c2 == 0 then none else some (drop 2 arg)) argv argi in
    let long = find_option ros 0 (some (drop 2 arg)) b'-' none argv argi in
    char_at arg 1 >>= λ c. if c == b'-' then long else short c

abbrev pub help_text : Text
help_text = b'-' ∷ b'-' ∷ b'h' ∷ b'e' ∷ b'l' ∷ b'p' ∷ []

-- RD_OPT_MUT_GRP
abbrev pub group : ℕ → ℕ
group type = bit_and type 0xf0 / 16

-- the test of mutual exclusivity; `mutro` has five places, and beyond them is a `fault`
unfoldable pub claim_group : State → ℕ → Opt → Run (State × Option OptError)
claim_group st roi ro =
    let claimed : Run (State × Option OptError) = elim (get_elem? st.mutro (group ro.type)) [
      | none ↦ fault
      | some none ↦ ok (record st { mutro = set st.mutro (group ro.type) (some roi) }, none)
      | some (some other) ↦ ok (st, some (exclusive roi other))
    ] in
    if has_bits ro.type 0xf0 then claimed else ok (st, none)

abbrev pub custom_error : Option Text → Option OptError
custom_error none = none
custom_error (some t) = some (custom t)

-- the call of rd_bitvec_set for the option at `roi`
abbrev pub mark_found : State → ℕ → State
mark_found st roi = record st { found = (Bitvec.op st.found roi set_op).0 }

module _ (strtol : Text → ℤ × ℕ) (exists : Text → Bool) where
  -- the option's parser, rd_opt_parse_assign, or none
  unfoldable pub run_parser : State → ℕ → Opt → List Text → ℕ → Run (State × ℕ × Option OptError)
  run_parser st roi ro argv newi = elim ro.parse [
    | some p ↦
        let (vars, i, e) = p st.vars argv newi in ok (record st { vars = vars }, i, custom_error e)
    | none ↦ elim ro.opaque [
      | none ↦ ok (st, newi, none)
      | some o ↦ assign strtol exists ro roi st.vars argv newi >>= λ (vars, e).
          ok (record st { vars = vars }, newi, e)
    ]
  ]

  -- from the match of an option to the end of the loop's body
  unfoldable pub take_option : State → ℕ → Opt → Option Text → List Text → ℕ → Run Turn
  unfolding claim_group run_parser
  take_option st roi ro val argv newi =
      let run = claim_group st roi ro >>= λ (st', err). elim err [
        | some e ↦ ok (reject st' e)
        | none ↦ run_parser st' roi ro argv newi >>= λ (st'', i, err'). elim err' [
          | some e ↦ ok (reject st'' e)
          | none ↦ ok (go_on (mark_found st'' roi) (i + 1))
        ]
      ] in
      if (ro.argcnt == 0) && not (is_none val)
      then ok (reject st (unexpected_args roi))
      else if not (ro.argcnt == 0) && is_none val
      then ok (reject st (missing_args roi))
      else run

  -- what follows the loop over the table
  unfoldable pub use_match : List Text → State → Text → Found → Run Turn
  unfolding take_option
  use_match argv st arg no_match = ok (reject st (unknown_option arg))
  use_match argv st arg (matched roi ro v newi) = take_option st roi ro v argv newi

  -- the body of the loop over `argv`
  unfoldable pub one_arg : List Opt → List Text → ℕ → State → Run Turn
  unfolding find_arg use_match
  one_arg ros argv argi st = arg_at argv argi >>= λ arg. elim arg [
    | [] ↦ ok (go_on st (argi + 1))
    | d ∷ s ↦
        let option = find_arg ros argv argi (d ∷ s) >>= use_match argv st (d ∷ s) in
        if not (d == b'-')
        then ok (stop st)
        else if text_eq (d ∷ s) help_text
        then ok (reject st help)
        else option
  ]

  -- the loop over `argv`, on fuel
  unfoldable pub parse_loop : ℕ → List Opt → List Text → ℕ → State → Run Parsed
  unfolding one_arg
  parse_loop zero ros argv argi st = out_of_fuel
  parse_loop (suc f) ros argv argi st =
      let body = one_arg ros argv argi st >>= λ turn. elim turn [
        | go_on st' i ↦ parse_loop f ros argv i st'
        | stop st' ↦ ok (parsed st' argi)
        | reject st' e ↦ ok (rejected st' e)
      ] in
      if ltb argi (length argv) then body else ok (parsed st argi)

-- an option that is not required, or was given, or whose group was
abbrev pub is_satisfied : State → ℕ → Opt → Run Bool
is_satisfied st roi ro =
    let group_set : Run Bool = elim (get_elem? st.mutro (group ro.type)) [
      | none ↦ fault
      | some m ↦ ok (not (is_none m))
    ] in
    if not (has_bits ro.type 2)
    then ok true
    else if not (is_zero (Bitvec.op st.found roi test_op).1)
    then ok true
    else if has_bits ro.type 0xf0
    then group_set
    else ok false

-- the loop over the required options: the places of those that are missing
unfoldable pub missing_options : List Opt → ℕ → State → Run (List ℕ)
missing_options [] roi st = fault
missing_options (ro ∷ ros) roi st =
    let rest = missing_options ros (suc roi) st in
    let all = is_satisfied st roi ro >>= λ b. rest >>= λ l. ok (if b then l else roi ∷ l) in
    if has_bits ro.type 1 then ok [] else all

-- what follows the loop over `argv`
unfoldable pub check_required : List Opt → Parsed → Run Parsed
unfolding missing_options
check_required ros (rejected st e) = ok (rejected st e)
check_required ros (parsed st argi) = missing_options ros 0 st >>= λ l. elim l [
  | [] ↦ ok (parsed st argi)
  | r ∷ rs ↦ ok (rejected st (required_missing (r ∷ rs)))
]

module _ (strtol : Text → ℤ × ℕ) (exists : Text → Bool) where
  -- rd_opt_parse on the variables `vars`, with a round of fuel for each argument
  unfoldable pub opt_parse : List Opt → List Text → List Value → Run Parsed
  unfolding parse_loop check_required
  opt_parse ros argv vars = Bitvec.init 512 >>= λ found.
      parse_loop strtol exists (suc (length argv)) ros argv 1
        (record { vars = vars; mutro = replicate 5 none; found = found })
      >>= check_required ros

  -- the return value of rd_opt_get, with `*argip` if it is set
  unfoldable pub opt_get : List Opt → List Text → List Value → Run (ℕ × Option ℕ)
  unfolding opt_parse
  opt_get ros argv vars = opt_parse ros argv vars >>= λ p. elim p [
    | parsed st argi ↦ ok (1, some argi)
    | rejected st e ↦ ok (0, none)
  ]
