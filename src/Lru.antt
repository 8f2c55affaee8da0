-- ===== src/Lru.antt =====
-- rdlru.c and rdlru.h: the entries, the youngest first, and their counter.
pub mod Order
mod Examples
use librd.Common.{ℕ, ◌-◌, ◌+◌, Bool, Option, none, some, List, [], ◌∷◌, length, ltb, if◌then◌else◌}
use librd.Common.Run.{Run, ok, fault, ◌>>=◌}

-- `rd_lru_t`; an element is its `rlrue_ptr`
pub record Lru {ℓ} (A : Type ℓ) : Type ℓ where
  pub cnt : ℕ
  pub elms : List A

-- TAILQ_LAST of a list, with what TAILQ_REMOVE of it leaves
abbrev with_last {ℓ} : {A : Type ℓ} → A → Option (A × List A) → Option (A × List A)
with_last x none = some (x, [])
with_last x (some (l, rest)) = some (l, x ∷ rest)

abbrev pub last_elm {ℓ} : {A : Type ℓ} → List A → Option (A × List A)
last_elm [] = none
last_elm (x ∷ xs) = with_last x (last_elm xs)

module _ {ℓ} {A : Type ℓ} where
  -- rd_lru_new
  unfoldable pub lru_new : Lru A
  lru_new = record { cnt = 0; elms = [] }

  -- rd_lru_elm_destroy of an element whose removal leaves `rest`; `fault` is the assertion
  unfoldable pub lru_elm_destroy : Lru A → List A → Run (Lru A)
  lru_elm_destroy rlru rest =
      if ltb 0 rlru.cnt then ok (record { cnt = rlru.cnt - 1; elms = rest }) else fault

  -- rd_lru_push
  unfoldable pub lru_push : Lru A → A → Lru A
  lru_push rlru ptr = record { cnt = rlru.cnt + 1; elms = ptr ∷ rlru.elms }

  -- rd_lru_pop; `none` is NULL
  unfoldable pub lru_pop : Lru A → Run (Lru A × Option A)
  unfolding lru_elm_destroy
  lru_pop rlru = elim (last_elm rlru.elms) [
    | none ↦ ok (rlru, none)
    | some (ptr, rest) ↦ lru_elm_destroy rlru rest >>= λ rlru'. ok (rlru', some ptr)
  ]

  -- rd_lru_shift
  unfoldable pub lru_shift : Lru A → Run (Lru A × Option A)
  unfolding lru_elm_destroy
  lru_shift rlru = elim rlru.elms [
    | [] ↦ ok (rlru, none)
    | ptr ∷ rest ↦ lru_elm_destroy rlru rest >>= λ rlru'. ok (rlru', some ptr)
  ]

  -- the loop of rd_lru_destroy over the elements
  unfoldable pub lru_destroy_loop : List A → Lru A → Run (Lru A)
  unfolding lru_elm_destroy
  lru_destroy_loop [] rlru = ok rlru
  lru_destroy_loop (x ∷ xs) rlru = lru_elm_destroy rlru xs >>= λ rlru'. lru_destroy_loop xs rlru'

  -- rd_lru_destroy, up to the release of the list's head
  unfoldable pub lru_destroy : Lru A → Run (Lru A)
  unfolding lru_destroy_loop
  lru_destroy rlru = lru_destroy_loop rlru.elms rlru
