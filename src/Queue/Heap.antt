-- ===== src/Queue/Heap.antt =====
-- The heap of rdqueue.c: which elements are live, and how a write to one cell leaves the others.
use librd.Common.{
  ℕ, zero, suc, ◌<◌, ◌≡◌, refl, arith, Option, none, some, List, [], ◌∷◌, ◌++◌, length,
}
use librd.Queue.{Elm, cell}

module _ {ℓ} {A : Type ℓ} where
  abbrev pub refs_of : Option (Elm A) → ℕ
  refs_of none = 0
  refs_of (some rfqe) = rfqe.refcnt

  -- the references to element `e`; 0 if it was freed or never allocated
  abbrev pub refs : List (Option (Elm A)) → ℕ → ℕ
  refs heap e = refs_of (cell heap e)

  abbrev pub ptr_of : Option (Elm A) → Option A
  ptr_of none = none
  ptr_of (some rfqe) = some rfqe.ptr

  -- what a cell with references holds
  pub live_cell :
      (c : Option (Elm A)) (n : ℕ)
      → refs_of c ≡ suc n
      → (p : A) × (c ≡ some (record { refcnt = suc n; ptr = p }))
  live_cell none n h = absurd (omega arith)
  live_cell (some r) n h = (r.ptr, λ i. some (record { refcnt = h i; ptr = r.ptr }))

  pub refs-bound : (heap : List (Option (Elm A))) (e n : ℕ) → refs heap e ≡ suc n → e < length heap
  refs-bound [] e n h = absurd (omega arith)
  refs-bound (c ∷ heap) zero n h = omega arith
  refs-bound (c ∷ heap) (suc e) n h = omega (arith, refs-bound heap e n h)

  pub cell-append :
      (heap : List (Option (Elm A))) (c : Option (Elm A)) (e : ℕ)
      → e < length heap
      → cell (heap ++ c ∷ []) e ≡ cell heap e
  cell-append [] c e h = absurd (omega arith)
  cell-append (d ∷ heap) c zero h = refl
  cell-append (d ∷ heap) c (suc e) h = cell-append heap c e (omega arith)

  pub cell-append_new :
      (heap : List (Option (Elm A))) (c : Option (Elm A)) → cell (heap ++ c ∷ []) (length heap) ≡ c
  cell-append_new [] c = refl
  cell-append_new (d ∷ heap) c = cell-append_new heap c
