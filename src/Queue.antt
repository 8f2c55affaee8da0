-- ===== src/Queue.antt =====
-- rdqueue.c and rdqueue.h: the first-in first-out queue. Elements live on a heap, whose addresses are
-- places in a list, and the queue links their addresses; a cell is empty once its element was freed.
-- A call is what it does while it holds the lock.
pub mod Heap
pub mod Add
pub mod Pop
pub mod Reachable
mod Examples
use librd.Common.{
  ℕ, zero, ◌+◌, ◌-◌, Bool, true, false, Option, none, some, List, [], ◌∷◌, ◌++◌, get_or, set,
  length, ltb, leb, ◌==◌, if◌then◌else◌,
}
use librd.Common.Int.{ℤ, pos, negsuc, sub_ℕ, ltb_ℤ}
use librd.Common.Run.{Run, ok, fault, ◌>>=◌}

-- `rd_fifoq_elm_t`
pub record Elm {ℓ} (A : Type ℓ) : Type ℓ where
  pub refcnt : ℕ
  pub ptr : A

-- `rd_fifoq_t`, and the heap that its elements are allocated on
pub record Fifoq {ℓ} (A : Type ℓ) : Type ℓ where
  pub heap : List (Option (Elm A))
  pub queue : List ℕ
  pub cnt : ℤ
  pub max_size : ℤ
  pub taildrop : Bool
  pub inited : Bool

-- how rd_fifoq_pop0 leaves the lock: it returns NULL or an element, or it waits on `rfq_cond`
pub data Popped : Type 0 where
  null waits : Popped
  element : ℕ → Popped

-- `n++` and `n--` on an `int`
abbrev pub inc : ℤ → ℤ
inc (pos n) = pos (n + 1)
inc (negsuc n) = sub_ℕ 0 n

abbrev pub dec : ℤ → ℤ
dec (pos n) = sub_ℕ n 1
dec (negsuc n) = negsuc (n + 1)

-- `max_size != 0 && cnt >= max_size`
abbrev pub is_full : ℤ → ℤ → Bool
is_full cnt (pos zero) = false
is_full cnt max_size = if ltb_ℤ cnt max_size then false else true

-- TAILQ_FIRST and TAILQ_LAST, with the queue that TAILQ_REMOVE leaves
abbrev pub first_elm : List ℕ → Option (ℕ × List ℕ)
first_elm [] = none
first_elm (e ∷ q) = some (e, q)

abbrev pub last_elm : List ℕ → Option (ℕ × List ℕ)
last_elm [] = none
last_elm (e ∷ q) = elim (last_elm q) [ none ↦ some (e, []) | some (l, q') ↦ some (l, e ∷ q') ]

-- the end that rd_fifoq_add0 drops an entry from
abbrev pub purge_elm : Bool → List ℕ → Option (ℕ × List ℕ)
purge_elm taildrop q = if taildrop then last_elm q else first_elm q

module _ {ℓ} {A : Type ℓ} where
  abbrev pub cell : List (Option (Elm A)) → ℕ → Option (Elm A)
  cell heap e = get_or heap e none

  -- memory that calloc has cleared
  abbrev pub cleared : Fifoq A
  cleared = record {
    heap = [];
    queue = [];
    cnt = pos 0;
    max_size = pos 0;
    taildrop = false;
    inited = false;
  }

  -- rd_fifoq_init, of the caller's memory or of new memory, which alone is cleared
  unfoldable pub init : Option (Fifoq A) → Fifoq A
  init none = record cleared { queue = []; inited = true }
  init (some rfq) = record rfq { queue = []; inited = true }

  -- rd_fifoq_set_max_size
  unfoldable pub set_max_size : Fifoq A → ℤ → Bool → Fifoq A
  set_max_size rfq max_size taildrop = record rfq { max_size = max_size; taildrop = taildrop }

  -- rd_fifoq_elm_release0, and rd_fifoq_elm_release within its lock; a freed element is a `fault`
  unfoldable pub elm_release : Fifoq A → ℕ → Run (Fifoq A)
  elm_release rfq e = elim (cell rfq.heap e) [
    | none ↦ fault
    | some rfqe ↦
        let n = rfqe.refcnt - 1 in
        let rest = if ltb 0 n then some (record rfqe { refcnt = n }) else none in
        ok (record rfq { heap = set rfq.heap e rest })
  ]

  -- the branch of rd_fifoq_add0 for a queue at its maximal size, with `*ptr_purged`
  unfoldable pub purge : Fifoq A → Run (Fifoq A × Option A)
  unfolding elm_release
  purge rfq = elim (purge_elm rfq.taildrop rfq.queue) [
    | none ↦ fault
    | some (e, q) ↦ elim (cell rfq.heap e) [
      | none ↦ fault
      | some rfqe ↦
          let rest = record rfq { queue = q; cnt = dec rfq.cnt } in
          if rfqe.refcnt == 1
          then (elm_release rest e >>= λ rfq'. ok (rfq', some rfqe.ptr))
          else ok (rest, some rfqe.ptr)
    ]
  ]

  -- the end of rd_fifoq_add0
  abbrev pub insert_tail : Fifoq A → ℕ → Fifoq A
  insert_tail rfq e = record rfq { queue = rfq.queue ++ e ∷ []; cnt = inc rfq.cnt }

  -- `malloc` of an element: an address that was not used before
  abbrev pub new_elm : Fifoq A → A → Fifoq A
  new_elm rfq ptr = record rfq { heap = rfq.heap ++ some (record { refcnt = 2; ptr = ptr }) ∷ [] }

  -- rd_fifoq_add0, with `*ptr_purged`; `fault` is the assertion, or the entry of an empty queue
  unfoldable pub add0 : Fifoq A → A → Run (Fifoq A × Option A)
  unfolding purge
  add0 rfq ptr =
      let e = length rfq.heap in
      let purged = purge (new_elm rfq ptr) in
      if rfq.inited
      then (if is_full rfq.cnt rfq.max_size
          then (purged >>= λ (rfq', p). ok (insert_tail rfq' e, p))
          else ok (insert_tail (new_elm rfq ptr) e, none))
      else fault

  -- rd_fifoq_pop0 up to its return or its wait. The `continue` for an element that only the queue
  -- refers to leaves the loop, whose condition is that `rfqe` is NULL, and releases `rfqe` again.
  unfoldable pub pop0 : Fifoq A → Bool → Run (Fifoq A × Popped)
  unfolding elm_release
  pop0 rfq nowait = elim rfq.queue [
    | [] ↦ ok (rfq, if nowait then null else waits)
    | e ∷ q ↦
        let rest = record rfq { queue = q; cnt = dec rfq.cnt } in
        if ltb_ℤ (pos 0) rfq.cnt
        then elim (cell rfq.heap e) [
          | none ↦ fault
          | some rfqe ↦
              let once = elm_release rest e in
              let both = once >>= λ rfq'. elm_release rfq' e in
              (if rfqe.refcnt == 1 then both else once) >>= λ rfq'. ok (rfq', element e)
        ]
        else fault
  ]

  -- rd_fifoq_pop0 after rd_cond_timedwait_ms or rd_cond_wait returned
  unfoldable pub woken : Fifoq A → Bool → Run (Fifoq A × Popped)
  unfolding pop0
  woken rfq timed_out = if timed_out then ok (rfq, null) else pop0 rfq false

  -- the loop of rd_fifoq_destroy, which frees the elements whatever their count
  unfoldable pub free_all : List (Option (Elm A)) → List ℕ → Run (List (Option (Elm A)))
  free_all heap [] = ok heap
  free_all heap (e ∷ q) =
      let rest = free_all (set heap e none) q in
      elim (cell heap e) [ none ↦ fault | some rfqe ↦ rest ]

  -- rd_fifoq_destroy, which leaves `rfq_cnt` as it is
  unfoldable pub destroy : Fifoq A → Run (Fifoq A)
  unfolding free_all
  destroy rfq = free_all rfq.heap rfq.queue >>= λ heap. ok (record rfq { heap = heap; queue = [] })
