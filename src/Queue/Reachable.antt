-- ===== src/Queue/Reachable.antt =====
-- rdqueue.c over time: threads add, pop and release in any order, each call within the lock.
use mathlib.Core.Path.{subst}
use librd.Common.{
  IsDistinct-middle, All-imp, All-append_left, All-append_right, ℕ, ◌≡◌, ◌≢◌, refl, ap, ◌∙◌, sym,
  Bool, true, false, if◌then◌else◌, Option, none, some, List, [], ◌∷◌, ◌++◌, All, All-append, arith,
}
use librd.Common.Int.{ℤ, pos, neg_part}
use librd.Common.Run.{Run, ok}
use librd.Queue.{
  Elm, Fifoq, Popped, null, waits, element, init, set_max_size, add0, pop0, elm_release, destroy,
  cell,
}
use librd.Queue.Heap.{refs, refs_of, live_cell}
use librd.Queue.Add.{IsFifoq, add0-IsAdded}
use librd.Queue.Pop.{
  apart, pop0-IsPopped, IsPopped, empty, taken, release-borrowed, release-last, free_all-live,
}

-- The states that calls lead to, with the elements popped and not yet released.
pub data IsReachable {ℓ} {A : Type ℓ} : Fifoq A → List ℕ → Type ℓ where
  allocated : IsReachable (init none) []
  started :
      (rfq : Fifoq A)
      → rfq.cnt ≡ pos 0
      → neg_part rfq.max_size ≡ 0
      → IsReachable (init (some rfq)) []
  resized :
      (rfq : Fifoq A) (lent : List ℕ) (max_size : ℤ) (taildrop : Bool)
      → IsReachable rfq lent
      → neg_part max_size ≡ 0
      → IsReachable (set_max_size rfq max_size taildrop) lent
  added :
      (rfq : Fifoq A) (lent : List ℕ) (ptr : A) (rfq' : Fifoq A) (purged : Option A)
      → IsReachable rfq lent
      → add0 rfq ptr ≡ ok (rfq', purged)
      → IsReachable rfq' lent
  popped :
      (rfq : Fifoq A) (lent : List ℕ) (nowait : Bool) (rfq' : Fifoq A) (r : Popped)
      → IsReachable rfq lent
      → pop0 rfq nowait ≡ ok (rfq', r)
      → IsReachable rfq' (elim r [ element e ↦ e ∷ lent | _ ↦ lent ])
  released :
      (rfq : Fifoq A) (front back : List ℕ) (e : ℕ) (rfq' : Fifoq A)
      → IsReachable rfq (front ++ e ∷ back)
      → elm_release rfq e ≡ ok rfq'
      → IsReachable rfq' (front ++ back)

abbrev result {ℓ} : {A : Type ℓ} → Run A → A → A
result (ok a) d = a
result _ d = d

ok_inj {ℓ} : {A : Type ℓ} (a b : A) → ok a ≡ ok b → a ≡ b
ok_inj a b h = ap (λ m. result m a) h

-- the run returns
abbrev pub Succeeds {κ} : {B : Type κ} → Run B → Type κ
Succeeds {B = B} m = (b : B) × (m ≡ ok b)

module _ {ℓ} {A : Type ℓ} where
  -- an element that was lent may as well be the one popped last
  brought_front :
      (rfq : Fifoq A) (front back : List ℕ) (e : ℕ)
      → IsFifoq rfq (front ++ e ∷ back)
      → IsFifoq rfq (e ∷ front ++ back)
  brought_front rfq front back e wf =
      let one : ℕ → Type 0 = λ x. refs rfq.heap x ≡ 1 in
      let split = All-append_right one front (e ∷ back) wf.borrowed in
      let others = IsDistinct-middle front back e wf.lent_distinct in
      record {
        counted = wf.counted;
        sized = wf.sized;
        usable = wf.usable;
        queued = wf.queued;
        borrowed = (
          split.0,
          All-append one front back (All-append_left one front (e ∷ back) wf.borrowed) split.1,
        );
        queue_distinct = wf.queue_distinct;
        lent_distinct = (others.1, others.0);
      }

  after_pop :
      (rfq : Fifoq A) (lent : List ℕ) (nowait : Bool) (rfq' : Fifoq A) (r : Popped)
      → IsFifoq rfq lent
      → IsPopped rfq lent nowait rfq' r
      → IsFifoq rfq' (elim r [ element e ↦ e ∷ lent | _ ↦ lent ])
  after_pop rfq lent nowait rfq' _ wf (empty h k) = by_flag nowait
    where
      kept : IsFifoq rfq' lent
      kept = subst (λ q. IsFifoq q lent) (sym k) wf

      by_flag :
          (b : Bool)
          → IsFifoq rfq' (elim (if b then null else waits) [ element e ↦ e ∷ lent | _ ↦ lent ])
      by_flag true = kept
      by_flag false = kept
  after_pop rfq lent nowait rfq' _ wf (taken e y h k wf') = wf'

  -- Take a queue that rd_fifoq_init allocated, or that it set up in memory where the count is 0 and
  -- the maximal size is not negative. In every state that calls of rd_fifoq_add0, rd_fifoq_pop0,
  -- rd_fifoq_elm_release on popped elements and rd_fifoq_set_max_size with a size that is not negative
  -- lead to from there, `rfq_cnt` is the number of entries, each queued element is live with two
  -- references and each popped one with one, and no element is queued or lent twice.
  pub reachable-IsFifoq : (rfq : Fifoq A) (lent : List ℕ) → IsReachable rfq lent → IsFifoq rfq lent
  unfolding init set_max_size
  reachable-IsFifoq _ _ allocated = record {
    counted = refl;
    sized = refl;
    usable = refl;
    queued = tt;
    borrowed = tt;
    queue_distinct = tt;
    lent_distinct = tt;
  }
  reachable-IsFifoq _ _ (started rfq none_counted size) = record {
    counted = none_counted;
    sized = size;
    usable = refl;
    queued = tt;
    borrowed = tt;
    queue_distinct = tt;
    lent_distinct = tt;
  }
  reachable-IsFifoq _ _ (resized rfq lent max_size taildrop s h) =
      let wf = reachable-IsFifoq rfq lent s in
      record {
        counted = wf.counted;
        sized = h;
        usable = wf.usable;
        queued = wf.queued;
        borrowed = wf.borrowed;
        queue_distinct = wf.queue_distinct;
        lent_distinct = wf.lent_distinct;
      }
  reachable-IsFifoq _ _ (added rfq lent ptr rfq' purged s h) =
      let (q, p, run, wf, how) = add0-IsAdded rfq lent ptr (reachable-IsFifoq rfq lent s) in
      subst (λ q. IsFifoq q lent) (ap (λ z. z.0) (ok_inj (q, p) (rfq', purged) (sym run ∙ h))) wf
  reachable-IsFifoq _ _ (popped rfq lent nowait rfq' r s h) =
      let wf = reachable-IsFifoq rfq lent s in
      let (q, p, run, how) = pop0-IsPopped rfq lent nowait wf in
      subst (λ z. IsFifoq z.0 (elim z.1 [ element e ↦ e ∷ lent | _ ↦ lent ]))
        (ok_inj (q, p) (rfq', r) (sym run ∙ h)) (after_pop rfq lent nowait q p wf how)
  reachable-IsFifoq _ _ (released rfq front back e rfq' s h) =
      let wf = brought_front rfq front back e (reachable-IsFifoq rfq (front ++ e ∷ back) s) in
      let (q, run, wf', _, _) = release-borrowed rfq (front ++ back) e wf in
      subst (λ q. IsFifoq q (front ++ back)) (ok_inj q rfq' (sym run ∙ h)) wf'

  from_other :
      (heap : List (Option (Elm A))) (e : ℕ) (q : List ℕ)
      → refs heap e ≡ 1
      → All (λ x. refs heap x ≡ 2) q
      → All (λ x. x ≢ e) q
  from_other heap e q h a = apart heap e 1 2 q h (λ p. omega (arith, p)) a

  elm_release-Succeeds :
      (rfq : Fifoq A) (lent : List ℕ)
      → All (λ e. refs rfq.heap e ≡ 1) lent
      → All (λ e. Succeeds (elm_release rfq e)) lent
  elm_release-Succeeds rfq lent a =
      All-imp (λ e. refs rfq.heap e ≡ 1) (λ e. Succeeds (elm_release rfq e)) lent
        (λ e h. let (y, here) = live_cell (cell rfq.heap e) 0 h in (_, release-last rfq e y here)) a

  -- In every state that is reached from a queue which rd_fifoq_init allocated, or set up in memory
  -- where the count is 0 and the maximal size is not negative, no call fails: rd_fifoq_add0 and
  -- rd_fifoq_pop0 return or wait, and so does rd_fifoq_elm_release of each popped element. None of
  -- them follows a NULL pointer, reads a freed element or breaks the assertions.
  pub calls-IsReachable :
      (rfq : Fifoq A) (lent : List ℕ) (ptr : A) (nowait : Bool)
      → IsReachable rfq lent
      → Succeeds (add0 rfq ptr)
        × Succeeds (pop0 rfq nowait)
        × All (λ e. Succeeds (elm_release rfq e)) lent
  calls-IsReachable rfq lent ptr nowait s =
      let wf = reachable-IsFifoq rfq lent s in
      let (rfq', p, run, _, _) = add0-IsAdded rfq lent ptr wf in
      let (rfq'', r, run', _) = pop0-IsPopped rfq lent nowait wf in
      (((rfq', p), run), ((rfq'', r), run'), elm_release-Succeeds rfq lent wf.borrowed)

  -- rd_fifoq_destroy, in a state that is reached from a queue which rd_fifoq_init allocated, or set up
  -- in memory where the count is 0 and the maximal size is not negative, frees each queued element
  -- once, leaves the queue empty, and leaves the elements that were popped and not released to their
  -- holders.
  pub destroy-IsReachable :
      (rfq : Fifoq A) (lent : List ℕ)
      → IsReachable rfq lent
      → (rfq' : Fifoq A) × (destroy rfq ≡ ok rfq')
        × (rfq'.queue ≡ [])
        × All (λ e. cell rfq'.heap e ≡ none) rfq.queue
        × All (λ e. refs rfq'.heap e ≡ 1) lent
  unfolding destroy
  destroy-IsReachable rfq lent s =
      let wf = reachable-IsFifoq rfq lent s in
      let (heap, run, freed, kept) = free_all-live rfq.heap rfq.queue wf.queued wf.queue_distinct in
      (
        record rfq { heap = heap; queue = [] },
        rw (run) refl,
        refl,
        freed,
        All-imp (λ e. refs rfq.heap e ≡ 1) (λ e. refs heap e ≡ 1) lent
            (λ e h. ap refs_of (kept e (from_other rfq.heap e rfq.queue h wf.queued)) ∙ h)
            wf.borrowed,
      )
