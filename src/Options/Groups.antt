-- ===== src/Options/Groups.antt =====
-- The groups of options that exclude each other, as `mutro` holds them.
use librd.Common.{
  All, All-of_In, [], In, ℕ, ◌≡◌, ◌≢◌, ap, sym, ◌∙◌, arith, true, false, inl, inr, Option, none,
  some, List, ◌∷◌, get_elem?, set, Bool-cases, ◌==◌, ==_iff, if◌then◌else◌, some_inj, none-ne-some,
  get_elem?-set_self, get_elem?-set_ne,
}
use librd.Options.{has_bits, Opt}
use librd.Options.Parse.{State, group}

-- the options at two places are not of one group of mutual exclusivity
abbrev pub IsApart : List Opt → ℕ → ℕ → Type 0
IsApart ros r r' =
    (ro ro' : Opt)
    → get_elem? ros r ≡ some ro
    → get_elem? ros r' ≡ some ro'
    → has_bits ro.type 0xf0 ≡ true
    → has_bits ro'.type 0xf0 ≡ true
    → group ro.type ≢ group ro'.type

-- no two of the options named exclude each other, and none that excludes others is named twice
abbrev pub IsExclusive : List Opt → List ℕ → Type 0
IsExclusive ros [] = Unit
IsExclusive ros (r ∷ seen) = All (IsApart ros r) seen × IsExclusive ros seen

-- `mutro` holds the options seen that exclude others
pub record IsClaimed (ros : List Opt) (mutro : List (Option ℕ)) (seen : List ℕ) : Type 0 where
  pub claims :
      (g r : ℕ)
      → get_elem? mutro g ≡ some (some r)
      → In r seen × ((ro : Opt) × (get_elem? ros r ≡ some ro) × (group ro.type ≡ g))
  pub owners :
      (r : ℕ) (ro : Opt)
      → In r seen
      → get_elem? ros r ≡ some ro
      → has_bits ro.type 0xf0 ≡ true
      → get_elem? mutro (group ro.type) ≡ some (some r)
  pub exclusive : IsExclusive ros seen

pub clash : true ≡ false → ⊥
clash e = let one : ◌≡◌ {A = ℕ} 1 0 = ap (λ b. if b then 1 else 0) e in omega (arith, one)

module _ (ros : List Opt) (st : State) (roi : ℕ) (ro : Opt) (seen : List ℕ)
    (here : get_elem? ros roi ≡ some ro) (old : IsClaimed ros st.mutro seen) where
  pub not-IsClaimed : has_bits ro.type 0xf0 ≡ false → IsClaimed ros st.mutro (roi ∷ seen)
  not-IsClaimed plain = record {
    claims = λ g r e. let (m, rest) = old.claims g r e in (inr m, rest);
    owners = λ r ro' m e b. elim m [
      | inl same ↦
          let eq = some_inj (sym here ∙ ap (get_elem? ros) (sym same) ∙ e) in
          absurd (clash (sym b ∙ ap (λ o. has_bits o.type 0xf0) (sym eq) ∙ plain))
      | inr m' ↦ old.owners r ro' m' e b
    ];
    exclusive = (
      All-of_In (IsApart ros roi) seen (λ r' m o o' at at' b b'.
          let eq = some_inj (sym here ∙ at) in
          absurd (clash (sym b ∙ ap (λ o. has_bits o.type 0xf0) (sym eq) ∙ plain))),
      old.exclusive,
    );
  }

  pub claimed :
      get_elem? st.mutro (group ro.type) ≡ some none
      → IsClaimed ros (set st.mutro (group ro.type) (some roi)) (roi ∷ seen)
  claimed free =
      let now = get_elem?-set_self st.mutro (group ro.type) none (some roi) free in
      let others = get_elem?-set_ne st.mutro (group ro.type) in
      record {
        claims = λ g r e. elim (Bool-cases (group ro.type == g)) [
          | inl q ↦
              let same = (==_iff (group ro.type) g).0 q in
              let eq = some_inj (
                some_inj
                  (sym now ∙ ap (get_elem? (set st.mutro (group ro.type) (some roi))) same ∙ e)) in
              (inl (sym eq), (ro, ap (get_elem? ros) (sym eq) ∙ here, same))
          | inr q ↦
              let apart : group ro.type ≢ g = λ same. ground (arith, q, same) in
              let (m, rest) = old.claims g r (sym (others g (some roi) apart) ∙ e) in (inr m, rest)
        ];
        owners = λ r ro' m e b. elim m [
          | inl same ↦
              let eq = some_inj (sym here ∙ ap (get_elem? ros) (sym same) ∙ e) in
              ap (get_elem? (set st.mutro (group ro.type) (some roi)))
                (ap (λ o. group o.type) (sym eq))
              ∙ now
              ∙ ap (λ x. some (some x)) (sym same)
          | inr m' ↦
              let before = old.owners r ro' m' e b in
              let apart : group ro.type ≢ group ro'.type = λ same.
                none-ne-some (some_inj (sym free ∙ ap (get_elem? st.mutro) same ∙ before)) in
              others (group ro'.type) (some roi) apart ∙ before
        ];
        exclusive = (
          All-of_In (IsApart ros roi) seen (λ r' m o o' at at' b b' same.
              let eq = some_inj (sym here ∙ at) in
              let before = old.owners r' o' m at' b' in
              let there = ap (λ o. group o.type) eq ∙ same in
              none-ne-some (some_inj (sym free ∙ ap (get_elem? st.mutro) there ∙ before))),
          old.exclusive,
        );
      }
