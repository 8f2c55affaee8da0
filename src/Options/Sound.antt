-- ===== src/Options/Sound.antt =====
-- What the success of rd_opt_parse says of the arguments, and that it ends.
use librd.Common.{
  In, ℕ, zero, suc, ◌+◌, ◌≤◌, ◌<◌, ◌≡◌, refl, ap, sym, ◌∙◌, arith, Bool, true, false, not, ◌&&◌,
  ◌⊎◌, inl, inr, Option, none, some, List, [], ◌∷◌, length, get_elem?, All, ltb, ltb→lt, ◌==◌,
  if◌then◌else◌, All-get_elem?,
}
use librd.Common.Int.{ℤ}
use librd.Common.Run.{ok, fault, Ensures, Ensures->>=, Ensures-if, ◌>>=◌}
use librd.Bitvec.{IsBitvec}
use librd.Bitvec.Op.{tested}
use librd.Options.{Text, is_none, is_zero, text_eq, Opt, OptError}
use librd.Options.Parse.{
  State, Found, no_match, matched, Turn, go_on, stop, reject, Parsed, parsed, rejected, help_text,
  find_arg, claim_group, run_parser, mark_found, take_option, use_match, one_arg, parse_loop,
}
use librd.Options.Found.{set-IsBitvec, set-tested}
use librd.Options.Groups.{IsClaimed}
use librd.Options.Walk.{IsNamed, IsWalk, value-argcnt}
use librd.Options.Steps.{
  IsForward, IsHit, find_arg-IsHit, IsGrouped, claim_group-IsGrouped, IsParsed, run_parser-IsParsed,
}

-- what holds of the state after the arguments that named the options `seen`
pub record IsParsing (ros : List Opt) (st : State) (seen : List ℕ) : Type 0 where
  pub bits : IsBitvec st.found
  pub set_bits : (j : ℕ) → is_zero (tested st.found j) ≡ false → In j seen
  pub groups : IsClaimed ros st.mutro seen

not-ltb→le : (a b : ℕ) → ltb a b ≡ false → b ≤ a
not-ltb→le a b h = ground arith

not-true : (b : Bool) → not b ≡ true → b ≡ false
not-true true e = sym e
not-true false e = refl

not-false : (b : Bool) → not b ≡ false → b ≡ true
not-false true e = refl
not-false false e = sym e

-- what holds after one round of the loop over `argv`
abbrev IsTurn : List Opt → List Text → ℕ → List ℕ → Turn → Type 0
IsTurn ros argv argi seen (go_on st i) =
    (argi < i) × ((seen' : List ℕ) × IsParsing ros st seen' × IsWalk ros argv i seen')
IsTurn ros argv argi seen (stop st) =
    IsParsing ros st seen
    × ((c : ℕ) × (s : Text) × (get_elem? argv argi ≡ some (c ∷ s)) × ((c == b'-') ≡ false))
IsTurn ros argv argi seen (reject st e) = Unit

-- the loop ends behind the last argument, or at one that is no option
abbrev pub IsEnd : List Text → ℕ → Type 0
IsEnd argv argi =
    (length argv ≤ argi)
    ⊎ ((c : ℕ) × (s : Text) × (get_elem? argv argi ≡ some (c ∷ s)) × ((c == b'-') ≡ false))

abbrev pub IsLoop : List Opt → List Text → Parsed → Type 0
IsLoop ros argv (parsed st argi) =
    (seen : List ℕ) × IsParsing ros st seen × IsWalk ros argv argi seen × IsEnd argv argi
IsLoop ros argv (rejected st e) = Unit

module _ (strtol : Text → ℤ × ℕ) (exists : Text → Bool) (ros : List Opt) (argv : List Text)
    (forward : All IsForward ros) where
  module _ (st : State) (seen : List ℕ) (v : IsParsing ros st seen) (argi : ℕ)
      (w : IsWalk ros argv argi seen) where
    after_parser :
        (st' : State) (roi : ℕ) (ro : Opt) (val : Option Text) (newi : ℕ)
        → argi ≤ newi
        → IsNamed ros argv argi roi ro val newi
        → st'.found ≡ st.found
        → IsClaimed ros st'.mutro (roi ∷ seen)
        → (r : State × ℕ × Option OptError) → IsParsed st' ro.parse argv newi r
        → Ensures (IsTurn ros argv argi seen) (elim r.2 [
          | some e ↦ ok (reject r.0 e)
          | none ↦ ok (go_on (mark_found r.0 roi) (r.1 + 1))
        ])
    after_parser st' roi ro val newi le named same claimed (st'', i, some e) h = tt
    after_parser st' roi ro val newi le named same claimed (st'', i, none)
          (found, mutro, more, next) =
        (
          omega (arith, le, more),
          (
            roi ∷ seen,
            record {
              bits = rw (found, same) (set-IsBitvec st.found roi v.bits);
              set_bits = λ j.
                  rw (found, same)
                    (λ h. elim (set-tested st.found roi j v.bits h) [
                      | inl e ↦ inl (sym e)
                      | inr e ↦ inr (v.set_bits j e)
                    ]);
              groups = rw mutro claimed;
            },
            IsWalk.took argi roi newi i ro val seen w named more next,
          ),
        )

    take_option-IsTurn :
        (roi : ℕ) (ro : Opt) (val : Option Text) (newi : ℕ)
        → argi ≤ newi
        → ((ro.argcnt == 0) ≡ is_none val → IsNamed ros argv argi roi ro val newi)
        → get_elem? ros roi ≡ some ro
        → Ensures (IsTurn ros argv argi seen) (take_option strtol exists st roi ro val argv newi)
    unfolding take_option
    take_option-IsTurn roi ro val newi le named here =
        Ensures-if (IsTurn ros argv argi seen) ((ro.argcnt == 0) && not (is_none val)) _ _ (λ e. tt)
          (λ e.
            Ensures-if (IsTurn ros argv argi seen) (not (ro.argcnt == 0) && is_none val) _ _
              (λ k. tt)
              (λ k.
                Ensures->>= (IsGrouped ros st roi seen) (IsTurn ros argv argi seen)
                  (claim_group st roi ro) _ (claim_group-IsGrouped ros st roi ro seen here v.groups)
                  (λ a q. after_claim (named (value-argcnt (ro.argcnt == 0) (is_none val) e k)) a)))
      where
        after_claim :
            IsNamed ros argv argi roi ro val newi
            → (a : State × Option OptError) → IsGrouped ros st roi seen a
            → Ensures (IsTurn ros argv argi seen) (elim a.1 [
              | some e ↦ ok (reject a.0 e)
              | none ↦ run_parser strtol exists a.0 roi ro argv newi >>= λ (st'', i, err').
                  elim err' [
                    | some e ↦ ok (reject st'' e)
                    | none ↦ ok (go_on (mark_found st'' roi) (i + 1))
                  ]
            ])
        after_claim by (st', some e) h = tt
        after_claim by (st', none) h =
            Ensures->>= (IsParsed st' ro.parse argv newi) (IsTurn ros argv argi seen)
              (run_parser strtol exists st' roi ro argv newi) _
              (run_parser-IsParsed strtol exists st' roi ro argv newi
                (All-get_elem? IsForward ros roi ro forward here))
              (λ r q. after_parser st' roi ro val newi le by h.0 h.1 r)

    use_match-IsTurn :
        (d : ℕ) (s : Text)
        → get_elem? argv argi ≡ some (d ∷ s)
        → (d == b'-') ≡ true
        → text_eq (d ∷ s) help_text ≡ false
        → (f : Found) → find_arg ros argv argi (d ∷ s) ≡ ok f
        → IsHit ros 0 argi f
        → Ensures (IsTurn ros argv argi seen) (use_match strtol exists argv st (d ∷ s) f)
    unfolding use_match
    use_match-IsTurn d s at dash other no_match e h = tt
    use_match-IsTurn d s at dash other (matched r ro val newi) e h =
        let (k, q, g) = h.1 in
        let same : r ≡ k = omega (arith, q) in
        take_option-IsTurn r ro val newi h.0 (λ fits. (d, s, at, dash, other, e, fits))
          (ap (get_elem? ros) same ∙ g)

    one_arg-IsTurn : Ensures (IsTurn ros argv argi seen) (one_arg strtol exists ros argv argi st)
    unfolding one_arg
    one_arg-IsTurn = by_arg (get_elem? argv argi) refl
      where
        by_text :
            (arg : Text)
            → get_elem? argv argi ≡ some arg
            → Ensures (IsTurn ros argv argi seen) (elim arg [
              | [] ↦ ok (go_on st (argi + 1))
              | d ∷ s ↦
                  let option =
                    find_arg ros argv argi (d ∷ s) >>= use_match strtol exists argv st (d ∷ s) in
                  if not (d == b'-')
                  then ok (stop st)
                  else if text_eq (d ∷ s) help_text
                  then ok (reject st OptError.help)
                  else option
            ])
        by_text [] at = (omega arith, (seen, v, IsWalk.skipped argi seen w at))
        by_text (d ∷ s) at =
            Ensures-if (IsTurn ros argv argi seen) (not (d == b'-')) _ _
              (λ e. (v, (d, s, at, not-true (d == b'-') e)))
              (λ dash.
                Ensures-if (IsTurn ros argv argi seen) (text_eq (d ∷ s) help_text) _ _ (λ e. tt)
                  (λ other.
                    Ensures->>= (IsHit ros 0 argi) (IsTurn ros argv argi seen)
                      (find_arg ros argv argi (d ∷ s)) _ (find_arg-IsHit ros argv argi (d ∷ s))
                      (use_match-IsTurn d s at (not-false (d == b'-') dash) other)))

        by_arg :
            (o : Option Text)
            → get_elem? argv argi ≡ o
            → Ensures (IsTurn ros argv argi seen) (
                (elim o [ none ↦ fault | some t ↦ ok t ]) >>= λ arg. elim arg [
                  | [] ↦ ok (go_on st (argi + 1))
                  | d ∷ s ↦
                      let option =
                        find_arg ros argv argi (d ∷ s)
                        >>= use_match strtol exists argv st (d ∷ s) in
                      if not (d == b'-')
                      then ok (stop st)
                      else if text_eq (d ∷ s) help_text
                      then ok (reject st OptError.help)
                      else option
                ])
        by_arg none at = tt
        by_arg (some arg) at = by_text arg at

  pub parse_loop-IsLoop :
      (f argi : ℕ) (st : State) (seen : List ℕ)
      → 0 < f
      → length argv + 1 ≤ f + argi
      → IsParsing ros st seen
      → IsWalk ros argv argi seen
      → Ensures (IsLoop ros argv) (parse_loop strtol exists f ros argv argi st)
  unfolding parse_loop
  parse_loop-IsLoop zero argi st seen pos_f le v w = absurd (omega arith)
  parse_loop-IsLoop (suc f) argi st seen pos_f le v w =
      Ensures-if (IsLoop ros argv) (ltb argi (length argv)) _ _
        (λ e.
          let inside = ltb→lt argi (length argv) e in
          Ensures->>= (IsTurn ros argv argi seen) (IsLoop ros argv)
            (one_arg strtol exists ros argv argi st) _ (one_arg-IsTurn st seen v argi w)
            (λ turn q. after_turn (parse_loop-IsLoop f) turn inside))
        (λ e. (seen, v, w, inl (not-ltb→le argi (length argv) e)))
    where
      after_turn :
          ((i : ℕ) (st' : State) (seen' : List ℕ)
            → 0 < f
            → length argv + 1 ≤ f + i
            → IsParsing ros st' seen'
            → IsWalk ros argv i seen'
            → Ensures (IsLoop ros argv) (parse_loop strtol exists f ros argv i st'))
          → (turn : Turn) → argi < length argv
          → IsTurn ros argv argi seen turn
          → Ensures (IsLoop ros argv) (elim turn [
            | go_on st' i ↦ parse_loop strtol exists f ros argv i st'
            | stop st' ↦ ok (parsed st' argi)
            | reject st' e ↦ ok (rejected st' e)
          ])
      after_turn again (go_on st' i) inside h =
          let ahead = h.0 in
          again i st' h.1.0 (omega (arith, inside, le)) (omega (arith, ahead, le)) h.1.1 h.1.2
      after_turn again (stop st') inside h = (seen, h.0, w, inr h.1)
      after_turn again (reject st' e) inside h = tt
