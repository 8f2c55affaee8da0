-- ===== src/Rand/Shuffle.antt =====
-- rd_array_shuffle permutes the array.
use mathlib.Core.Path.{subst}
use mathlib.Core.List.{Perm}
use mathlib.Core.List.Perm
use librd.Common.{
  ℕ, zero, suc, ◌+◌, ◌-◌, ◌%◌, ◌<◌, ◌≤◌, ◌≡◌, ◌≢◌, refl, ap, ◌∙◌, ◌⊎◌, arith, inl, inr, none, some,
  List, [], ◌∷◌, length, length-set, get_elem?, get_elem?-bound, get_elem?-set_ne, set, ◌==◌,
  not-==→ne, Bool-cases, if◌then◌else◌, none-ne-some, some_inj,
}
use librd.Common.Run.{Run, ok, fault, ◌>>=◌}
use librd.Rand.{jitter, entry_at, swap_entries, shuffle_loop, array_shuffle}

jitter-bound : (i random : ℕ) → jitter 0 i random ≤ i
unfolding jitter
jitter-bound i random = let m : random % (i + 1) < i + 1 = omega arith in omega (arith, m)

module _ {ℓ} {A : Type ℓ} where
  -- an entry is exchanged with one that stands before the list
  set-perm :
      (xs : List A) (i : ℕ) (a b : A) → get_elem? xs i ≡ some a → Perm (b ∷ xs) (a ∷ set xs i b)
  set-perm [] i a b h = absurd (none-ne-some h)
  set-perm (x ∷ xs) zero a b h =
      subst (λ y. Perm (b ∷ x ∷ xs) (y ∷ b ∷ xs)) (some_inj h) (Perm.swap x b xs)
  set-perm (x ∷ xs) (suc i) a b h =
      Perm.trans (Perm.swap x b xs)
        (Perm.trans (Perm.cons x (set-perm xs i a b h)) (Perm.swap a x (set xs i b)))

  swap-perm :
      (xs : List A) (i j : ℕ) (a b : A)
      → i ≢ j
      → get_elem? xs i ≡ some a
      → get_elem? xs j ≡ some b
      → Perm xs (set (set xs i b) j a)
  swap-perm xs i j a b ne h k =
      let other = get_elem?-set_ne xs i j b ne ∙ k in
      Perm.cons_inv (Perm.trans (set-perm xs i a b h) (set-perm (set xs i b) j b a other))

  entry_at-some : (xs : List A) (i : ℕ) (a : A) → get_elem? xs i ≡ some a → entry_at xs i ≡ ok a
  entry_at-some xs i a h = ap (λ o. elim o [ none ↦ fault | some c ↦ ok c ]) h

  -- one exchange of entries of the array
  swap_entries-perm :
      (xs : List A) (i j : ℕ)
      → i ≢ j
      → i < length xs
      → j < length xs
      → (ys : List A) × (swap_entries xs i j ≡ ok ys) × Perm xs ys × (length ys ≡ length xs)
  swap_entries-perm xs i j ne h k =
      let (a, here) = get_elem?-bound xs i h in
      let (b, there) = get_elem?-bound xs j k in
      (
        set (set xs i b) j a,
        swap_entries-ok xs i j a b here there (get_elem?-set_ne xs i j b ne ∙ there),
        swap-perm xs i j a b ne here there,
        length-set (set xs i b) j a ∙ length-set xs i b,
      )
    where
      swap_entries-ok :
          (xs : List A) (i j : ℕ) (a b : A)
          → get_elem? xs i ≡ some a
          → get_elem? xs j ≡ some b
          → get_elem? (set xs i b) j ≡ some b
          → swap_entries xs i j ≡ ok (set (set xs i b) j a)
      swap_entries-ok xs i j a b here there other =
          rw
            (
              entry_at-some xs i a here,
              entry_at-some xs j b there,
              entry_at-some (set xs i b) j b other,
            )
            refl

  -- one round, at index `i`
  abbrev round : ℕ → ℕ → List A → Run (List A)
  round i j xs = if i == j then ok xs else swap_entries xs i j

  round-perm :
      (i j : ℕ) (xs : List A)
      → i < length xs
      → j < length xs
      → (ys : List A) × (round i j xs ≡ ok ys) × Perm xs ys × (length ys ≡ length xs)
  round-perm i j xs h k = elim (Bool-cases (i == j)) [
    | inl same ↦ (xs, rw same refl, Perm.refl xs, refl)
    | inr apart ↦
        let (ys, run, p, len) = swap_entries-perm xs i j (not-==→ne i j apart) h k in
        (ys, rw apart run, p, len)
  ]

  shuffle_loop-perm :
      (i : ℕ) (draw : ℕ → ℕ) (xs : List A)
      → i < length xs ⊎ (i ≡ 0)
      → (ys : List A) × (shuffle_loop i draw xs ≡ ok ys) × Perm xs ys
  unfolding shuffle_loop
  shuffle_loop-perm zero draw xs h = (xs, refl, Perm.refl xs)
  shuffle_loop-perm (suc i) draw xs (inr e) = absurd (omega (arith, e))
  shuffle_loop-perm (suc i) draw xs (inl h) =
      let j = jitter 0 (i + 1) (draw (i + 1)) in
      let low = jitter-bound (i + 1) (draw (i + 1)) in
      let (ys, run, p, len) = round-perm (i + 1) j xs (omega (arith, h)) (omega (arith, h, low)) in
      let (zs, run', q) = shuffle_loop-perm i draw ys (inl (omega (arith, h, len))) in
      (zs, (λ k. run k >>= shuffle_loop i draw) ∙ run', Perm.trans p q)

  -- Whatever rand() returns, rd_array_shuffle ends with a permutation of the array, and no entry beyond
  -- the array is read or written.
  pub array_shuffle-perm :
      (draw : ℕ → ℕ) (xs : List A) → (ys : List A) × (array_shuffle draw xs ≡ ok ys) × Perm xs ys
  unfolding array_shuffle
  array_shuffle-perm draw [] = shuffle_loop-perm 0 draw [] (inr refl)
  array_shuffle-perm draw (x ∷ xs) =
      shuffle_loop-perm (length (x ∷ xs) - 1) draw (x ∷ xs) (inl (omega arith))
