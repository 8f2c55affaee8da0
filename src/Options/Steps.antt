-- ===== src/Options/Steps.antt =====
-- The steps of rd_opt_parse on one option: they want no fuel, and keep the state in order.
use librd.Common.{
  ℕ, zero, suc, ◌+◌, ◌≤◌, ◌≡◌, refl, arith, Bool, true, false, not, ◌&&◌, Option, none, some, List,
  [], ◌∷◌, length, get_elem?, set, ltb, ◌==◌, if◌then◌else◌,
}
use librd.Common.Int.{ℤ}
use librd.Common.Run.{Run, ok, fault, out_of_fuel, Ensures, Ensures->>=, Ensures-if, ◌>>=◌}
use librd.Options
use librd.Options.{
  Text, char_at, after_equals, text_eq, has_bits, is_none, is_zero, Value, Opt, OptError, Parser,
  arg_at, assign, assign_int,
}
use librd.Options.Parse.{
  State, Found, no_match, matched, next_arg, try_option, try_long, long_val, find_option, find_arg,
  group, claim_group, custom_error, run_parser,
}
use librd.Options.Groups.{IsClaimed, not-IsClaimed, claimed}

-- the option's own parser does not go back in `argv`
abbrev pub IsForward : Opt → Type 0
IsForward ro =
    (p : Parser)
    → ro.parse ≡ some p
    → (vars : List Value) (argv : List Text) (i : ℕ) → i ≤ (p vars argv i).1

abbrev AtLeast : ℕ → Option (Option Text × ℕ) → Type 0
AtLeast n none = Unit
AtLeast n (some (v, i)) = n ≤ i

AtLeast-next_arg :
    (b : Bool) (argv : List Text) (argi : ℕ) (val : Option Text)
    → AtLeast argi (some (if b then next_arg argv argi val else (val, argi)))
AtLeast-next_arg false argv argi val = omega arith
AtLeast-next_arg true argv argi val = after (ltb (argi + 1) (length argv))
  where
    after :
        (b : Bool)
        → AtLeast argi (some (if b then (get_elem? argv (argi + 1), argi + 1) else (val, argi)))
    after true = omega arith
    after false = omega arith

try_option-AtLeast :
    (ro : Opt) (l : Option Text) (c : ℕ) (val : Option Text) (argv : List Text) (argi : ℕ)
    → AtLeast argi (try_option ro l c val argv argi)
unfolding try_option
try_option-AtLeast ro none c val argv argi = at_tests (ro.short == 0) (ro.short == c)
  where
    taken : Option Text × ℕ
    taken = if not (ro.argcnt == 0) && is_none val then next_arg argv argi val else (val, argi)

    at_tests : (b d : Bool) → AtLeast argi (if b then none else if d then some taken else none)
    at_tests true d = tt
    at_tests false true = AtLeast-next_arg (not (ro.argcnt == 0) && is_none val) argv argi val
    at_tests false false = tt
try_option-AtLeast ro (some l) c val argv argi = by_long ro.long
  where
    by_equals : (o : Option Text) → AtLeast argi (some (long_val ro o val argv argi))
    by_equals none = AtLeast-next_arg (not (ro.argcnt == 0)) argv argi val
    by_equals (some v) = omega arith

    by_test :
        (b : Bool)
        → AtLeast argi (if b then some (long_val ro (after_equals l) val argv argi) else none)
    by_test true = by_equals (after_equals l)
    by_test false = tt

    by_long :
        (o : Option Text)
        → AtLeast argi (elim o [ none ↦ none | some name ↦ try_long ro l name val argv argi ])
    by_long none = tt
    by_long (some name) = by_test (text_eq l name)

char_at-Ensures : (s : Text) (i : ℕ) → Ensures (λ c. Unit) (char_at s i)
char_at-Ensures [] zero = tt
char_at-Ensures [] (suc i) = tt
char_at-Ensures (c ∷ s) zero = tt
char_at-Ensures (c ∷ s) (suc i) = char_at-Ensures s i

-- the option found stands at its place in the table, and the next argument is not before this one
abbrev pub IsHit : List Opt → ℕ → ℕ → Found → Type 0
IsHit ros roi argi no_match = Unit
IsHit ros roi argi (matched r ro v newi) =
    (argi ≤ newi) × ((k : ℕ) × (r ≡ roi + k) × (get_elem? ros k ≡ some ro))

find_option-IsHit :
    (ros : List Opt) (roi : ℕ) (l : Option Text) (c : ℕ) (val : Option Text) (argv : List Text)
    (argi : ℕ)
    → Ensures (IsHit ros roi argi) (find_option ros roi l c val argv argi)
unfolding find_option
find_option-IsHit [] roi l c val argv argi = tt
find_option-IsHit (ro ∷ ros) roi l c val argv argi =
    Ensures-if (IsHit (ro ∷ ros) roi argi) (ro.type == 1) (ok no_match) _ (λ e. tt)
      (λ e.
        by_try (try_option ro l c val argv argi) (try_option-AtLeast ro l c val argv argi)
          (find_option ros (suc roi) l c val argv argi)
          (find_option-IsHit ros (suc roi) l c val argv argi))
  where
    later : (f : Found) → IsHit ros (suc roi) argi f → IsHit (ro ∷ ros) roi argi f
    later no_match h = tt
    later (matched r o v n) h = let (k, e, g) = h.1 in (h.0, (suc k, omega (arith, e), g))

    in_run :
        (m : Run Found)
        → Ensures (IsHit ros (suc roi) argi) m
        → Ensures (IsHit (ro ∷ ros) roi argi) m
    in_run (ok f) h = later f h
    in_run fault h = tt
    in_run out_of_fuel h = h

    by_try :
        (o : Option (Option Text × ℕ))
        → AtLeast argi o
        → (rest : Run Found) → Ensures (IsHit ros (suc roi) argi) rest
        → Ensures
            (IsHit (ro ∷ ros) roi argi)
            (elim o [ none ↦ rest | some (v, newi) ↦ ok (matched roi ro v newi) ])
    by_try none h rest k = in_run rest k
    by_try (some (v, n)) h rest k = (h, (0, omega arith, refl))

pub find_arg-IsHit :
    (ros : List Opt) (argv : List Text) (argi : ℕ) (arg : Text)
    → Ensures (IsHit ros 0 argi) (find_arg ros argv argi arg)
unfolding find_arg
find_arg-IsHit ros argv argi arg =
    Ensures->>= (λ c. Unit) (IsHit ros 0 argi) (char_at arg 1) _ (char_at-Ensures arg 1)
      (λ c e t.
        Ensures-if (IsHit ros 0 argi) (c == b'-') _ _ (λ q. find_option-IsHit ros 0 _ _ _ argv argi)
          (λ q.
            Ensures->>= (λ c. Unit) (IsHit ros 0 argi) (char_at arg 2) _ (char_at-Ensures arg 2)
              (λ c2 e2 t2. find_option-IsHit ros 0 _ _ _ argv argi)))

-- a group that is claimed with no message leaves the rest of the state
abbrev pub IsGrouped : List Opt → State → ℕ → List ℕ → State × Option OptError → Type 0
IsGrouped ros st roi seen (st', none) =
    (st'.found ≡ st.found) × IsClaimed ros st'.mutro (roi ∷ seen)
IsGrouped ros st roi seen (st', some e) = Unit

pub claim_group-IsGrouped :
    (ros : List Opt) (st : State) (roi : ℕ) (ro : Opt) (seen : List ℕ)
    → get_elem? ros roi ≡ some ro
    → IsClaimed ros st.mutro seen
    → Ensures (IsGrouped ros st roi seen) (claim_group st roi ro)
unfolding claim_group
claim_group-IsGrouped ros st roi ro seen here old =
    Ensures-if (IsGrouped ros st roi seen) (has_bits ro.type 0xf0) _ _
      (λ b. by_place (get_elem? st.mutro (group ro.type)) refl)
      (λ b. (refl, not-IsClaimed ros st roi ro seen here old b))
  where
    by_place :
        (o : Option (Option ℕ))
        → get_elem? st.mutro (group ro.type) ≡ o
        → Ensures (IsGrouped ros st roi seen) (elim o [
          | none ↦ fault
          | some none ↦ ok (record st { mutro = set st.mutro (group ro.type) (some roi) }, none)
          | some (some other) ↦ ok (st, some (OptError.exclusive roi other))
        ])
    by_place none e = tt
    by_place (some none) e = (refl, claimed ros st roi ro seen here old e)
    by_place (some (some other)) e = tt

-- `*argip` is `i` after the option's parser, if it has one, and else still `newi`
abbrev pub IsNext : Option Parser → List Text → ℕ → ℕ → Type 0
IsNext none argv newi i = i ≡ newi
IsNext (some p) argv newi i = (vars : List Value) × (i ≡ (p vars argv newi).1)

-- a parser changes variables, and goes on in `argv`
abbrev pub IsParsed : State → Option Parser → List Text → ℕ → State × ℕ × Option OptError → Type 0
IsParsed st parse argv newi (st', i, e) =
    (st'.found ≡ st.found) × (st'.mutro ≡ st.mutro) × (newi ≤ i) × IsNext parse argv newi i

module _ (strtol : Text → ℤ × ℕ) (exists : Text → Bool) where
  assign-Ensures :
      (ro : Opt) (roi : ℕ) (vars : List Value) (argv : List Text) (argi : ℕ)
      → Ensures (λ r. Unit) (assign strtol exists ro roi vars argv argi)
  unfolding assign
  assign-Ensures ro roi vars argv argi =
      Ensures-if (λ r. Unit) (ro.argcnt == 0) _ _ (λ e. tt)
        (λ e.
          Ensures-if (λ r. Unit) (has_bits ro.type 0xa000) _ _ (λ e. of_arg _ (λ a. tt))
            (λ e.
              Ensures-if (λ r. Unit) (has_bits ro.type 0x4000) _ _ (λ e. of_arg _ (λ a. tt))
                (λ e.
                  Ensures-if (λ r. Unit) (has_bits ro.type 0x1000) _ _ (λ e. of_arg _ nonempty)
                    (λ e. tt))))
    where
      of_arg :
          (k : Text → Run (List Value × Option OptError))
          → ((a : Text) → Ensures (λ r. Unit) (k a))
          → Ensures (λ r. Unit) (arg_at argv argi >>= k)
      of_arg k h = by_arg (get_elem? argv argi)
        where
          by_arg :
              (o : Option Text)
              → Ensures (λ r. Unit) ((elim o [ none ↦ fault | some t ↦ ok t ]) >>= k)
          by_arg none = tt
          by_arg (some t) = h t

      nonempty :
          (a : Text)
          → Ensures {A = List Value × Option OptError}
              (λ r. Unit)
              (elim a [
                | [] ↦ ok (vars, some (OptError.arg_required roi))
                | c ∷ s ↦ ok (Options.store ro.opaque (Value.text (c ∷ s)) vars, none)
              ])
      nonempty [] = tt
      nonempty (c ∷ s) = tt

  pub run_parser-IsParsed :
      (st : State) (roi : ℕ) (ro : Opt) (argv : List Text) (newi : ℕ)
      → IsForward ro
      → Ensures (IsParsed st ro.parse argv newi) (run_parser strtol exists st roi ro argv newi)
  unfolding run_parser
  run_parser-IsParsed st roi ro argv newi forward = by_parser ro.parse forward
    where
      by_opaque :
          (o : Option ℕ)
          → Ensures (IsParsed st none argv newi) (elim o [
            | none ↦ ok (st, newi, none)
            | some _ ↦ assign strtol exists ro roi st.vars argv newi >>= λ (vars, e).
                ok (record st { vars = vars }, newi, e)
          ])
      by_opaque none = (refl, refl, omega arith, refl)
      by_opaque (some o) =
          Ensures->>= (λ r. Unit) (IsParsed st none argv newi) _ _
            (assign-Ensures ro roi st.vars argv newi) (λ a e t. (refl, refl, omega arith, refl))

      by_parser :
          (o : Option Parser)
          → ((p : Parser)
              → o ≡ some p
              → (vars : List Value) (argv : List Text) (i : ℕ) → i ≤ (p vars argv i).1)
          → Ensures (IsParsed st o argv newi) (elim o [
            | some p ↦
                let (vars, i, e) = p st.vars argv newi in
                ok (record st { vars = vars }, i, custom_error e)
            | none ↦ elim ro.opaque [
              | none ↦ ok (st, newi, none)
              | some _ ↦ assign strtol exists ro roi st.vars argv newi >>= λ (vars, e).
                  ok (record st { vars = vars }, newi, e)
            ]
          ])
      by_parser none f = by_opaque ro.opaque
      by_parser (some p) f = (refl, refl, f p refl st.vars argv newi, (st.vars, refl))
