-- ===== src/Queue/Add.antt =====
-- rd_fifoq_add0: what the queue holds after it, and the entry that a full queue loses.
use librd.Common.{
  IsDistinct, IsDistinct-append, IsDistinct-last, All-imp, All-append_left, All-append_right, ℕ,
  zero, suc, ◌+◌, ◌<◌, ◌≡◌, ◌≢◌, refl, ap, ◌∙◌, sym, arith, Bool, true, false, Option, none, some,
  List, [], ◌∷◌, ◌++◌, All, All-append, length, length-append, Bool-cases, if◌then◌else◌, inl, inr,
}
use librd.Common.Int.{ℤ, pos, negsuc, neg_part}
use librd.Common.Run.{ok}
use librd.Queue.{
  Elm, Fifoq, cell, is_full, purge, purge_elm, last_elm, add0, insert_tail, new_elm, dec,
}
use librd.Queue.Heap.{refs, refs_of, ptr_of, live_cell, refs-bound, cell-append, cell-append_new}

module _ {ℓ} {A : Type ℓ} where
  -- what the elements of a queue point to
  abbrev pub contents_of : List (Option (Elm A)) → List ℕ → List (Option A)
  contents_of heap [] = []
  contents_of heap (e ∷ q) = ptr_of (cell heap e) ∷ contents_of heap q

  abbrev pub contents : Fifoq A → List (Option A)
  contents rfq = contents_of rfq.heap rfq.queue

  -- The queue counts its elements, each of which has the references of the queue and of the one who
  -- will pop it; `lent` are the elements popped and not yet released.
  pub record IsFifoq (rfq : Fifoq A) (lent : List ℕ) : Type 0 where
    pub counted : rfq.cnt ≡ pos (length rfq.queue)
    pub sized : neg_part rfq.max_size ≡ 0
    pub usable : rfq.inited ≡ true
    pub queued : All (λ e. refs rfq.heap e ≡ 2) rfq.queue
    pub borrowed : All (λ e. refs rfq.heap e ≡ 1) lent
    pub queue_distinct : IsDistinct rfq.queue
    pub lent_distinct : IsDistinct lent

  pub contents_of-ext :
      (h h' : List (Option (Elm A))) (q : List ℕ)
      → All (λ e. cell h' e ≡ cell h e) q
      → contents_of h' q ≡ contents_of h q
  contents_of-ext h h' [] a = refl
  contents_of-ext h h' (e ∷ q) a = rw (a.0, contents_of-ext h h' q a.1) refl

  pub contents_of-append :
      (h : List (Option (Elm A))) (q r : List ℕ)
      → contents_of h (q ++ r) ≡ contents_of h q ++ contents_of h r
  contents_of-append h [] r = refl
  contents_of-append h (e ∷ q) r = ap (λ c. ptr_of (cell h e) ∷ c) (contents_of-append h q r)

-- `x` at the end of a queue that a drop takes from
abbrev pub put_back {ℓ} : {A : Type ℓ} → Bool → A → List A → List A
put_back taildrop x q = if taildrop then q ++ x ∷ [] else x ∷ q

last_elm-some :
    (e : ℕ) (q : List ℕ)
    → (x : ℕ) × (q' : List ℕ) × (last_elm (e ∷ q) ≡ some (x, q')) × (q' ++ x ∷ [] ≡ e ∷ q)
last_elm-some e [] = (e, [], refl, refl)
last_elm-some e (f ∷ q) =
    let (x, q', h, k) = last_elm-some f q in (x, e ∷ q', rw h refl, ap (λ l. e ∷ l) k)

pub purge_elm-some :
    (t : Bool) (q : List ℕ)
    → 0 < length q
    → (x : ℕ) × (q' : List ℕ) × (purge_elm t q ≡ some (x, q')) × (put_back t x q' ≡ q)
purge_elm-some t [] h = absurd (omega arith)
purge_elm-some true (e ∷ q) h = last_elm-some e q
purge_elm-some false (e ∷ q) h = (e, q, refl, refl)

pub All-put_back {κ} :
    (P : ℕ → Type κ) (t : Bool) (x : ℕ) (q : List ℕ) → All P (put_back t x q) → P x × All P q
All-put_back P true x q h = ((All-append_right P q (x ∷ []) h).0, All-append_left P q (x ∷ []) h)
All-put_back P false x q h = h

pub IsDistinct-put_back :
    (t : Bool) (x : ℕ) (q : List ℕ)
    → IsDistinct (put_back t x q)
    → IsDistinct q × All (λ y. y ≢ x) q
IsDistinct-put_back true x q h = IsDistinct-last q x h
IsDistinct-put_back false x q h = (h.1, h.0)

length-put_back : (t : Bool) (x : ℕ) (q : List ℕ) → length (put_back t x q) ≡ length q + 1
length-put_back true x q = length-append q (x ∷ [])
length-put_back false x q = omega arith

dec-put_back :
    (t : Bool) (x : ℕ) (q : List ℕ) → dec (pos (length (put_back t x q))) ≡ pos (length q)
dec-put_back t x q = rw (length-put_back t x q) (ground arith)

pub contents_of-put_back {ℓ} :
    {A : Type ℓ} (h : List (Option (Elm A))) (t : Bool) (x : ℕ) (q : List ℕ)
    → contents_of h (put_back t x q) ≡ put_back t (ptr_of (cell h x)) (contents_of h q)
contents_of-put_back h true x q = contents_of-append h q (x ∷ [])
contents_of-put_back h false x q = refl

clash : false ≡ true → ⊥
clash h = let p : ◌≡◌ {A = ℕ} 0 1 = ap (λ b. if b then 1 else 0) h in omega (arith, p)

is_full-pos : (n : ℕ) (m : ℤ) → neg_part m ≡ 0 → is_full (pos n) m ≡ true → 0 < n
is_full-pos n (pos zero) h k = absurd (clash k)
is_full-pos zero (pos (suc m)) h k = ground arith
is_full-pos (suc n) (pos (suc m)) h k = omega arith
is_full-pos n (negsuc m) h k = absurd (omega arith)

module _ {ℓ} {A : Type ℓ} where
  -- What rd_fifoq_add0 may do: add an entry, or drop one before it does, which loses an element that
  -- still has two references.
  pub data IsAdded (rfq : Fifoq A) (ptr : A) (rfq' : Fifoq A) : Option A → Type ℓ where
    kept :
        is_full rfq.cnt rfq.max_size ≡ false
        → contents rfq' ≡ contents rfq ++ some ptr ∷ []
        → IsAdded rfq ptr rfq' none
    dropped :
        (y : A) (rest : List (Option A)) (e : ℕ) (q : List ℕ)
        → is_full rfq.cnt rfq.max_size ≡ true
        → purge_elm rfq.taildrop rfq.queue ≡ some (e, q)
        → cell rfq.heap e ≡ some (record { refcnt = 2; ptr = y })
        → contents rfq ≡ put_back rfq.taildrop (some y) rest
        → contents rfq' ≡ rest ++ some ptr ∷ []
        → cell rfq'.heap e ≡ some (record { refcnt = 2; ptr = y })
        → All (λ x. x ≢ e) rfq'.queue
        → IsAdded rfq ptr rfq' (some y)

  purge-some :
      (rfq : Fifoq A) (e : ℕ) (q : List ℕ) (y : A)
      → purge_elm rfq.taildrop rfq.queue ≡ some (e, q)
      → cell rfq.heap e ≡ some (record { refcnt = 2; ptr = y })
      → purge rfq ≡ ok (record rfq { queue = q; cnt = dec rfq.cnt }, some y)
  unfolding purge
  purge-some rfq e q y taken here = rw (taken, here, purge) refl

  module _ (rfq : Fifoq A) (lent : List ℕ) (ptr : A) (wf : IsFifoq rfq lent) where
    abbrev heap' : List (Option (Elm A))
    heap' = (new_elm rfq ptr).heap

    -- The element is new, and the others are as they were.
    old_cells :
        (n : ℕ) (q : List ℕ)
        → All (λ e. refs rfq.heap e ≡ suc n) q
        → All (λ e. cell heap' e ≡ cell rfq.heap e) q
    old_cells n q a =
        All-imp (λ e. refs rfq.heap e ≡ suc n) (λ e. cell heap' e ≡ cell rfq.heap e) q
          (λ e h. cell-append rfq.heap _ e (refs-bound rfq.heap e n h)) a

    old_refs :
        (n : ℕ) (q : List ℕ)
        → All (λ e. refs rfq.heap e ≡ suc n) q
        → All (λ e. refs heap' e ≡ suc n) q
    old_refs n q a =
        All-imp (λ e. refs rfq.heap e ≡ suc n) (λ e. refs heap' e ≡ suc n) q
          (λ e h. ap refs_of (cell-append rfq.heap _ e (refs-bound rfq.heap e n h)) ∙ h) a

    not_new :
        (n : ℕ) (q : List ℕ)
        → All (λ e. refs rfq.heap e ≡ suc n) q
        → All (λ e. e ≢ length rfq.heap) q
    not_new n q a =
        All-imp (λ e. refs rfq.heap e ≡ suc n) (λ e. e ≢ length rfq.heap) q
          (λ e h p. let b = refs-bound rfq.heap e n h in omega (arith, b, p)) a

    new_refs : refs heap' (length rfq.heap) ≡ 2
    new_refs = ap refs_of (cell-append_new rfq.heap _)

    -- an element behind the queue `q`, which is the queue or what is left of it
    inserted :
        (q : List ℕ) (n : ℤ)
        → n ≡ pos (length q)
        → All (λ e. refs rfq.heap e ≡ 2) q
        → IsDistinct q
        → IsFifoq
            (insert_tail (record (new_elm rfq ptr) { queue = q; cnt = n }) (length rfq.heap))
            lent
    inserted q n c a d = record {
      counted = rw (c) (ap pos (sym (length-append q _)));
      sized = wf.sized;
      usable = wf.usable;
      queued = All-append (λ e. refs heap' e ≡ 2) q _ (old_refs 1 q a) (new_refs, tt);
      borrowed = old_refs 0 lent wf.borrowed;
      queue_distinct = IsDistinct-append q _ d (not_new 1 q a);
      lent_distinct = wf.lent_distinct;
    }

    inserted_contents :
        (q : List ℕ)
        → All (λ e. refs rfq.heap e ≡ 2) q
        → contents_of heap' (q ++ length rfq.heap ∷ []) ≡ contents_of rfq.heap q ++ some ptr ∷ []
    inserted_contents q a =
        rw
          (
            contents_of-append heap' q,
            contents_of-ext rfq.heap heap' q (old_cells 1 q a),
            cell-append_new rfq.heap _,
          )
          refl

    add0-kept :
        is_full rfq.cnt rfq.max_size ≡ false
        → (rfq' : Fifoq A) × (p : Option A) × (add0 rfq ptr ≡ ok (rfq', p))
          × IsFifoq rfq' lent
          × IsAdded rfq ptr rfq' p
    unfolding add0
    add0-kept h = (
      insert_tail (new_elm rfq ptr) (length rfq.heap),
      none,
      rw (wf.usable, h) refl,
      inserted rfq.queue rfq.cnt wf.counted wf.queued wf.queue_distinct,
      kept h (inserted_contents rfq.queue wf.queued),
    )

    -- the entry `e`, of what `y` points to, is dropped, and `q` is left
    dropping :
        (e : ℕ) (q : List ℕ) (y : A)
        → is_full rfq.cnt rfq.max_size ≡ true
        → purge_elm rfq.taildrop rfq.queue ≡ some (e, q)
        → put_back rfq.taildrop e q ≡ rfq.queue
        → cell rfq.heap e ≡ some (record { refcnt = 2; ptr = y })
        → (rfq' : Fifoq A) × (p : Option A) × (add0 rfq ptr ≡ ok (rfq', p))
          × IsFifoq rfq' lent
          × IsAdded rfq ptr rfq' p
    unfolding add0
    dropping e q y h taken back here =
        let live = All-put_back (λ x. refs rfq.heap x ≡ 2) rfq.taildrop e q (rw back wf.queued) in
        let apart = IsDistinct-put_back rfq.taildrop e q (rw back wf.queue_distinct) in
        let bound = refs-bound rfq.heap e 1 live.0 in
        let there = cell-append rfq.heap _ e bound ∙ here in
        let one_less : dec rfq.cnt ≡ pos (length q) =
          ap dec (wf.counted ∙ ap (λ l. pos (length l)) (sym back))
          ∙ dec-put_back rfq.taildrop e q in
        let before : contents rfq ≡ put_back rfq.taildrop (some y) (contents_of rfq.heap q) =
          ap (contents_of rfq.heap) (sym back)
          ∙ contents_of-put_back rfq.heap rfq.taildrop e q
          ∙ ap (λ c. put_back rfq.taildrop (ptr_of c) (contents_of rfq.heap q)) here in
        (
          insert_tail (record (new_elm rfq ptr) { queue = q; cnt = dec rfq.cnt }) (length rfq.heap),
          some y,
          rw (purge-some (new_elm rfq ptr) e q y taken there, wf.usable, h) refl,
          inserted q (dec rfq.cnt) one_less live.1 apart.0,
          dropped y (contents_of rfq.heap q) e q h taken here before (inserted_contents q live.1)
              there (All-append (λ x. x ≢ e) q _ apart.1 (λ n. omega (arith, n, bound), tt)),
        )

    add0-dropped :
        is_full rfq.cnt rfq.max_size ≡ true
        → (rfq' : Fifoq A) × (p : Option A) × (add0 rfq ptr ≡ ok (rfq', p))
          × IsFifoq rfq' lent
          × IsAdded rfq ptr rfq' p
    add0-dropped h =
        let full : is_full (pos (length rfq.queue)) rfq.max_size ≡ true =
          ap (λ n. is_full n rfq.max_size) (sym wf.counted) ∙ h in
        let some_left = is_full-pos (length rfq.queue) rfq.max_size wf.sized full in
        let (e, q, taken, back) = purge_elm-some rfq.taildrop rfq.queue some_left in
        let live = All-put_back (λ x. refs rfq.heap x ≡ 2) rfq.taildrop e q (rw back wf.queued) in
        let (y, here) = live_cell (cell rfq.heap e) 1 live.0 in dropping e q y h taken back here

    -- On a queue that counts its elements, each with two references, and whose maximal size is not
    -- negative, rd_fifoq_add0 returns such a queue. It adds the entry at the end; a full queue first
    -- drops the entry at its tail or its head, as set, and `*ptr_purged` is what it points to.
    -- The element of the dropped entry keeps its two references and is in the queue no more.
    pub add0-IsAdded :
        (rfq' : Fifoq A) × (p : Option A) × (add0 rfq ptr ≡ ok (rfq', p))
        × IsFifoq rfq' lent
        × IsAdded rfq ptr rfq' p
    add0-IsAdded = elim (Bool-cases (is_full rfq.cnt rfq.max_size)) [
      | inl h ↦ add0-dropped h
      | inr h ↦ add0-kept h
    ]
