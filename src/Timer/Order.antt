-- ===== src/Timer/Order.antt =====
-- The list of timers: armed, in the order in which they are due, and none of them twice.
use librd.Common.{
  ℕ, ◌*◌, ◌%◌, ◌<◌, ◌≤◌, ◌≡◌, ◌≢◌, refl, ap, sym, ◌∙◌, arith, true, false, inl, inr, Option, none,
  some, List, [], ◌∷◌, ◌++◌, All, All-append, All-append_left, All-append_right, All-imp, All-both,
  leb, ◌==◌, ==_iff, not-==→ne, Bool-cases, set, get_or-set_ne, In, IsDistinct,
}
use librd.Common.Run.{ok}
use librd.Timer.{to_timespec, of_timespec, Timer, Timers, Heap, cell, first_of, unlink, is_first}

-- when a timer is due; 0 if it is not armed, or was freed
abbrev pub next_in : Option Timer → ℕ
next_in none = 0
next_in (some t) = t.next

abbrev pub next_of : Heap → ℕ → ℕ
next_of heap e = next_in (cell heap e)

abbrev pub IsAscending : Heap → List ℕ → Type 0
IsAscending heap [] = Unit
IsAscending heap (e ∷ q) = All (λ x. next_of heap e ≤ next_of heap x) q × IsAscending heap q

pub record IsTimers (s : Timers) : Type 0 where
  pub armed : All (λ e. 0 < next_of s.heap e) s.list
  pub linked : (e : ℕ) → 0 < next_of s.heap e → In e s.list
  pub ordered : IsAscending s.heap s.list
  pub distinct : IsDistinct s.list
  pub early : All (λ e. of_timespec s.next_ts ≤ next_of s.heap e) s.list

-- A time stamp comes back from its timespec.
pub of_timespec-to_timespec : (ts : ℕ) → of_timespec (to_timespec ts) ≡ ts
unfolding of_timespec to_timespec
of_timespec-to_timespec ts =
    let whole : leb 1_000_000_000 (ts % 1_000_000 * 1000) ≡ false = ground arith in
    rw whole (omega arith)

pub armed_cell : (c : Option Timer) → 0 < next_in c → (t : Timer) × (c ≡ some t)
armed_cell none h = absurd (omega arith)
armed_cell (some t) h = (t, refl)

-- the cells of other timers after a write
pub next_of-set_ne :
    (heap : Heap) (e x : ℕ) (c : Option Timer) → x ≢ e → next_of (set heap e c) x ≡ next_of heap x
next_of-set_ne heap e x c h = ap next_in (get_or-set_ne heap e x c none (λ p. h (sym p)))

module _ (heap : Heap) where
  IsAscending-append_left : (q r : List ℕ) → IsAscending heap (q ++ r) → IsAscending heap q
  IsAscending-append_left [] r h = tt
  IsAscending-append_left (x ∷ q) r h = (
    All-append_left (λ y. next_of heap x ≤ next_of heap y) q r h.0,
    IsAscending-append_left q r h.1,
  )

  pub IsAscending-append_right : (q r : List ℕ) → IsAscending heap (q ++ r) → IsAscending heap r
  IsAscending-append_right [] r h = h
  IsAscending-append_right (x ∷ q) r h = IsAscending-append_right q r h.1

  pub IsAscending-middle :
      (q r : List ℕ) (e : ℕ) → IsAscending heap (q ++ e ∷ r) → IsAscending heap (q ++ r)
  IsAscending-middle [] r e h = h.1
  IsAscending-middle (x ∷ q) r e h =
      let P : ℕ → Type 0 = λ y. next_of heap x ≤ next_of heap y in
      (
        All-append P q r (All-append_left P q (e ∷ r) h.0) (All-append_right P q (e ∷ r) h.0).1,
        IsAscending-middle q r e h.1,
      )

  -- the order of timers that another heap has at the same times
  pub IsAscending-ext :
      (heap' : Heap) (q : List ℕ)
      → All (λ x. next_of heap' x ≡ next_of heap x) q
      → IsAscending heap q
      → IsAscending heap' q
  IsAscending-ext heap' [] a h = tt
  IsAscending-ext heap' (x ∷ q) a h =
      let here = a.0 in
      (
        All-imp (λ y. (next_of heap' y ≡ next_of heap y) × (next_of heap x ≤ next_of heap y))
            (λ y. next_of heap' x ≤ next_of heap' y) q (λ y k. omega (arith, here, k))
            (All-both _ _ q a.1 h.0),
        IsAscending-ext heap' q a.1 h.1,
      )

-- a timer of the list is unlinked from where it stands
pub unlink-split :
    (e : ℕ) (l : List ℕ)
    → In e l
    → IsDistinct l
    → (front : List ℕ) × (back : List ℕ) × (l ≡ front ++ e ∷ back)
      × (unlink e l ≡ ok (front ++ back, first_of back))
      × (is_first e l ≡ is_first e (front ++ e ∷ []))
unfolding unlink
unlink-split e [] m d = elim m [ ]
unlink-split e (x ∷ l) m d = elim (Bool-cases (x == e)) [
  | inl same ↦
      let eq = (==_iff x e).0 same in
      let self : (e == e) ≡ true = ground arith in
      ([], l, ap (λ y. y ∷ l) eq, rw same refl, same ∙ sym self)
  | inr apart ↦
      let m' : In e l = elim m [ inl eq ↦ absurd (not-==→ne x e apart (sym eq)) | inr m' ↦ m' ] in
      let (front, back, split, run, first) = unlink-split e l m' d.1 in
      (x ∷ front, back, ap (λ r. x ∷ r) split, rw (apart, run) refl, refl)
]
