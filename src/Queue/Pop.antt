-- ===== src/Queue/Pop.antt =====
-- rd_fifoq_pop0, rd_fifoq_elm_release and rd_fifoq_destroy.
use librd.Common.{
  IsDistinct, All-imp, All-both, ℕ, suc, ◌≡◌, ◌≢◌, refl, ap, ◌∙◌, sym, arith, Bool, true, Option,
  none, some, List, [], ◌∷◌, All, length, set, get_or-set_self, get_or-set_ne, if◌then◌else◌,
}
use mathlib.Core.Path.{subst}
use librd.Common.Int.{ℤ, pos, ltb_ℤ}
use librd.Common.Run.{ok, fault}
use librd.Queue.{Elm, Fifoq, Popped, null, waits, element, cell, dec, elm_release, pop0, free_all}
use librd.Queue.Heap.{refs, refs_of, ptr_of, live_cell, refs-bound}
use librd.Queue.Add.{IsFifoq, contents, contents_of, contents_of-ext}

positive : (n : ℤ) (m : ℕ) → n ≡ pos (suc m) → (ltb_ℤ (pos 0) n ≡ true) × (dec n ≡ pos m)
positive n m h = rw (h) (ground arith, ground arith)

module _ {ℓ} {A : Type ℓ} where
  -- a write to the cell of `e` leaves the cells of other elements
  kept_refs :
      (heap : List (Option (Elm A))) (e n : ℕ) (c : Option (Elm A)) (q : List ℕ)
      → All (λ x. x ≢ e) q
      → All (λ x. refs heap x ≡ n) q
      → All (λ x. refs (set heap e c) x ≡ n) q
  kept_refs heap e n c q a r =
      All-imp (λ x. (x ≢ e) × (refs heap x ≡ n)) (λ x. refs (set heap e c) x ≡ n) q
        (λ x h. ap refs_of (get_or-set_ne heap e x c none (λ p. h.0 (sym p))) ∙ h.1)
        (All-both (λ x. x ≢ e) (λ x. refs heap x ≡ n) q a r)

  kept_contents :
      (heap : List (Option (Elm A))) (e : ℕ) (c : Option (Elm A)) (q : List ℕ)
      → All (λ x. x ≢ e) q
      → contents_of (set heap e c) q ≡ contents_of heap q
  kept_contents heap e c q a = contents_of-ext heap (set heap e c) q (
      All-imp (λ x. x ≢ e) (λ x. cell (set heap e c) x ≡ cell heap x) q
        (λ x h. get_or-set_ne heap e x c none (λ p. h (sym p))) a)

  -- elements with different counts are different
  pub apart :
      (heap : List (Option (Elm A))) (e m n : ℕ) (q : List ℕ)
      → refs heap e ≡ m
      → m ≢ n
      → All (λ x. refs heap x ≡ n) q
      → All (λ x. x ≢ e) q
  apart heap e m n q h d =
      All-imp (λ x. refs heap x ≡ n) (λ x. x ≢ e) q
        (λ x k p. d (sym h ∙ ap (refs heap) (sym p) ∙ k))

  release-shared :
      (rfq : Fifoq A) (e : ℕ) (y : A)
      → cell rfq.heap e ≡ some (record { refcnt = 2; ptr = y })
      → elm_release rfq e
        ≡ ok (record rfq { heap = set rfq.heap e (some (record { refcnt = 1; ptr = y })) })
  unfolding elm_release
  release-shared rfq e y h = rw (h, elm_release) refl

  pub release-last :
      (rfq : Fifoq A) (e : ℕ) (y : A)
      → cell rfq.heap e ≡ some (record { refcnt = 1; ptr = y })
      → elm_release rfq e ≡ ok (record rfq { heap = set rfq.heap e none })
  unfolding elm_release
  release-last rfq e y h = rw (h, elm_release) refl

  release-freed : (rfq : Fifoq A) (e : ℕ) → cell rfq.heap e ≡ none → elm_release rfq e ≡ fault
  unfolding elm_release
  release-freed rfq e h = rw (h, elm_release) refl

  pop0-some :
      (rfq : Fifoq A) (nowait : Bool) (e : ℕ) (q : List ℕ) (y : A)
      → rfq.queue ≡ e ∷ q
      → ltb_ℤ (pos 0) rfq.cnt ≡ true
      → cell rfq.heap e ≡ some (record { refcnt = 2; ptr = y })
      → pop0 rfq nowait
        ≡ ok (
          record rfq {
            queue = q;
            cnt = dec rfq.cnt;
            heap = set rfq.heap e (some (record { refcnt = 1; ptr = y }));
          },
          element e,
        )
  unfolding pop0
  pop0-some rfq nowait e q y k c h =
      rw (k, pop0, c, h, release-shared (record rfq { queue = q; cnt = dec rfq.cnt }) e y h) refl

  -- What rd_fifoq_pop0 may do: take the first element, whose reference the caller now holds, or find
  -- the queue empty and return NULL or wait.
  pub data IsPopped (rfq : Fifoq A) (lent : List ℕ) (nowait : Bool) (rfq' : Fifoq A)
      : Popped → Type ℓ where
    empty :
        rfq.queue ≡ [] → rfq' ≡ rfq → IsPopped rfq lent nowait rfq' (if nowait then null else waits)
    taken :
        (e : ℕ) (y : A)
        → contents rfq ≡ some y ∷ contents rfq'
        → ptr_of (cell rfq'.heap e) ≡ some y
        → IsFifoq rfq' (e ∷ lent)
        → IsPopped rfq lent nowait rfq' (element e)

  module _ (rfq : Fifoq A) (lent : List ℕ) (nowait : Bool) (wf : IsFifoq rfq lent) where
    taking :
        (e : ℕ) (q : List ℕ)
        → rfq.queue ≡ e ∷ q
        → (rfq' : Fifoq A) × (r : Popped) × (pop0 rfq nowait ≡ ok (rfq', r))
          × IsPopped rfq lent nowait rfq' r
    taking e q k =
        let queued : All (λ x. refs rfq.heap x ≡ 2) (e ∷ q) =
          subst (All (λ x. refs rfq.heap x ≡ 2)) k wf.queued in
        let distinct : IsDistinct (e ∷ q) = subst IsDistinct k wf.queue_distinct in
        let counted = positive rfq.cnt (length q) (wf.counted ∙ ap (λ l. pos (length l)) k) in
        let (y, here) = live_cell (cell rfq.heap e) 1 queued.0 in
        let one : Option (Elm A) = some (record { refcnt = 1; ptr = y }) in
        let now : cell (set rfq.heap e one) e ≡ one =
          get_or-set_self rfq.heap e one none (refs-bound rfq.heap e 1 queued.0) in
        let others = apart rfq.heap e 2 1 lent queued.0 (λ p. omega (arith, p)) wf.borrowed in
        (
          record rfq { queue = q; cnt = dec rfq.cnt; heap = set rfq.heap e one },
          element e,
          pop0-some rfq nowait e q y k counted.0 here,
          taken e y
              (ap (contents_of rfq.heap) k
                ∙ ap (λ c. ptr_of c ∷ contents_of rfq.heap q) here
                ∙ ap (λ c. some y ∷ c) (sym (kept_contents rfq.heap e one q distinct.0)))
              (ap ptr_of now)
              (record {
                counted = counted.1;
                sized = wf.sized;
                usable = wf.usable;
                queued = kept_refs rfq.heap e 2 one q distinct.0 queued.1;
                borrowed = (ap refs_of now, kept_refs rfq.heap e 1 one lent others wf.borrowed);
                queue_distinct = distinct.1;
                lent_distinct = (others, wf.lent_distinct);
              }),
        )

    by_queue :
        (q : List ℕ)
        → rfq.queue ≡ q
        → (rfq' : Fifoq A) × (r : Popped) × (pop0 rfq nowait ≡ ok (rfq', r))
          × IsPopped rfq lent nowait rfq' r
    unfolding pop0
    by_queue [] k = (
      record rfq { queue = [] },
      (if nowait then null else waits),
      rw (k, pop0) (λ i. ok (record rfq { queue = k i }, if nowait then null else waits)),
      empty k (sym (λ i. record rfq { queue = k i })),
    )
    by_queue (e ∷ q) k = taking e q k

    -- On a queue that counts its elements, each with two references, rd_fifoq_pop0 returns the first
    -- entry: its element is no more in the queue and has one reference, the caller's, and the rest of
    -- the queue is as it was. On an empty queue it changes nothing, and returns NULL or waits.
    pub pop0-IsPopped :
        (rfq' : Fifoq A) × (r : Popped) × (pop0 rfq nowait ≡ ok (rfq', r))
        × IsPopped rfq lent nowait rfq' r
    pop0-IsPopped = by_queue rfq.queue refl

  -- The release of a popped element frees it, and leaves the queue and what it holds as they were.
  pub release-borrowed :
      (rfq : Fifoq A) (lent : List ℕ) (e : ℕ)
      → IsFifoq rfq (e ∷ lent)
      → (rfq' : Fifoq A) × (elm_release rfq e ≡ ok rfq')
        × IsFifoq rfq' lent
        × (contents rfq' ≡ contents rfq)
        × (cell rfq'.heap e ≡ none)
  release-borrowed rfq lent e wf =
      let (y, here) = live_cell (cell rfq.heap e) 0 wf.borrowed.0 in
      let others = apart rfq.heap e 1 2 rfq.queue wf.borrowed.0 (λ p. omega (arith, p)) wf.queued in
      (
        record rfq { heap = set rfq.heap e none },
        release-last rfq e y here,
        record {
          counted = wf.counted;
          sized = wf.sized;
          usable = wf.usable;
          queued = kept_refs rfq.heap e 2 none rfq.queue others wf.queued;
          borrowed = kept_refs rfq.heap e 1 none lent wf.lent_distinct.0 wf.borrowed.1;
          queue_distinct = wf.queue_distinct;
          lent_distinct = wf.lent_distinct.1;
        },
        kept_contents rfq.heap e none rfq.queue others,
        get_or-set_self rfq.heap e none none (refs-bound rfq.heap e 0 wf.borrowed.0),
      )

  pub free_all-live :
      (heap : List (Option (Elm A))) (q : List ℕ)
      → All (λ e. refs heap e ≡ 2) q
      → IsDistinct q
      → (h' : List (Option (Elm A))) × (free_all heap q ≡ ok h')
        × All (λ e. cell h' e ≡ none) q
        × ((e : ℕ) → All (λ x. x ≢ e) q → cell h' e ≡ cell heap e)
  unfolding free_all
  free_all-live heap [] a d = (heap, refl, tt, λ e h. refl)
  free_all-live heap (e ∷ q) a d =
      let (y, here) = live_cell (cell heap e) 1 a.0 in
      let (h', run, freed, kept) =
        free_all-live (set heap e none) q (kept_refs heap e 2 none q d.0 a.1) d.1 in
      (
        h',
        rw (free_all, here, run) refl,
        (kept e d.0 ∙ get_or-set_self heap e none none (refs-bound heap e 1 a.0), freed),
        λ x h. kept x h.1 ∙ get_or-set_ne heap e x none none h.0,
      )
