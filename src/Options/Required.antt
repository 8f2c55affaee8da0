-- ===== src/Options/Required.antt =====
-- rd_opt_parse as a whole: the arguments of a success meet what the table requires.
use librd.Common.{In, ℕ, ◌+◌, ◌≡◌, true, false, ◌⊎◌, some, List, [], ◌∷◌, ◌++◌, get_elem?, All}
use librd.Options.{Text, has_bits, Opt}
use librd.Options.Parse.{State, Parsed, parsed, rejected, group}
use librd.Options.Groups.{IsExclusive}
use librd.Options.Walk.{IsWalk}
use librd.Options.Sound.{IsParsing, IsEnd}

-- The options `opts`, and behind them the one that ends the table.
pub record IsTable (ros opts : List Opt) : Type 0 where
  pub end : Opt
  pub ended : ros ≡ opts ++ end ∷ []
  pub marked : has_bits end.type 1 ≡ true
  pub unmarked : All (λ ro. has_bits ro.type 1 ≡ false) opts

-- an option that is not required, that was given, or whose group has an option that was
abbrev pub IsMet : List Opt → List ℕ → ℕ → Opt → Type 0
IsMet ros seen r ro =
    (has_bits ro.type 2 ≡ false)
    ⊎ (In r seen
        ⊎ ((r' : ℕ) × (ro' : Opt) × In r' seen
            × (get_elem? ros r' ≡ some ro')
            × (group ro'.type ≡ group ro.type)))

module _ (ros : List Opt) (argv : List Text) (st : State) (seen : List ℕ)
    (v : IsParsing ros st seen) where
  -- where nothing is missing, each option before the end is met
  abbrev AllMet : List Opt → ℕ → List ℕ → Type 0
  AllMet opts roi l =
      l ≡ [] → (k : ℕ) (ro : Opt) → get_elem? opts k ≡ some ro → IsMet ros seen (roi + k) ro

-- what the success of rd_opt_parse promises; a rejection promises nothing here
abbrev pub IsChecked : List Opt → List Opt → List Text → Parsed → Type 0
IsChecked ros opts argv (rejected st e) = Unit
IsChecked ros opts argv (parsed st argi) =
    (seen : List ℕ) × IsWalk ros argv argi seen
    × IsEnd argv argi
    × IsExclusive ros seen
    × ((r : ℕ) (ro : Opt) → get_elem? opts r ≡ some ro → IsMet ros seen r ro)
