-- ===== src/Queue/Examples.antt =====
-- Queues that the theorems apply to.
use librd.Common.{ℕ, ◌≡◌, refl, true, false, Option, none, some, [], ◌∷◌, All}
use librd.Common.Int.{pos, negsuc}
use librd.Common.Run.{Run, ok, fault}
use librd.Queue.{
  Elm, Fifoq, Popped, null, element, cell, init, set_max_size, add0, pop0, woken, elm_release,
  destroy,
}
use librd.Queue.Heap.{refs}
use librd.Queue.Add.{IsFifoq, IsAdded, add0-IsAdded}
use librd.Queue.Pop.{IsPopped, pop0-IsPopped}
use librd.Queue.Reachable.{
  IsReachable, allocated, resized, added, popped, Succeeds, reachable-IsFifoq, calls-IsReachable,
  destroy-IsReachable,
}

abbrev elm : ℕ → ℕ → Option (Elm ℕ)
elm n x = some (record { refcnt = n; ptr = x })

-- a queue of at most two entries, 10 and 20
abbrev two : Fifoq ℕ
two = record {
  heap = elm 2 10 ∷ elm 2 20 ∷ [];
  queue = 0 ∷ 1 ∷ [];
  cnt = pos 2;
  max_size = pos 2;
  taildrop = false;
  inited = true;
}

-- the same queue after a pop
abbrev one : Fifoq ℕ
one = record two { heap = elm 1 10 ∷ elm 2 20 ∷ []; queue = 1 ∷ []; cnt = pos 1 }

abbrev sized : Fifoq ℕ
sized = set_max_size (init none) (pos 2) false

abbrev first : Fifoq ℕ
first = record two { heap = elm 2 10 ∷ []; queue = 0 ∷ []; cnt = pos 1 }

sized-IsReachable : IsReachable sized []
sized-IsReachable = resized (init none) [] (pos 2) false allocated refl

add_first : add0 sized 10 ≡ ok (first, none)
unfolding add0 set_max_size init
add_first = refl

add_second : add0 first 20 ≡ ok (two, none)
unfolding add0
add_second = refl

pop_two : pop0 two true ≡ ok (one, element 0)
unfolding pop0
pop_two = refl

two-IsReachable : IsReachable two []
two-IsReachable =
    added first [] 20 two none (added sized [] 10 first none sized-IsReachable add_first) add_second

one-IsReachable : IsReachable one (0 ∷ [])
one-IsReachable = popped two [] true one (element 0) two-IsReachable pop_two

two-IsFifoq : IsFifoq two []
two-IsFifoq = reachable-IsFifoq two [] two-IsReachable

one-IsFifoq : IsFifoq one (0 ∷ [])
one-IsFifoq = reachable-IsFifoq one (0 ∷ []) one-IsReachable

-- A full queue drops its first entry.
full_drops :
    add0 two 30
    ≡ ok (record two { heap = elm 2 10 ∷ elm 2 20 ∷ elm 2 30 ∷ []; queue = 1 ∷ 2 ∷ [] }, some 10)
unfolding add0
full_drops = refl

abbrev unbounded_below : Fifoq ℕ
unbounded_below = set_max_size (init none) (negsuc 0) false

-- A negative maximal size makes an empty queue full: there is no entry to drop.
negative_size : add0 unbounded_below 10 ≡ fault
unfolding add0 set_max_size init
negative_size = refl

-- A wait that timed out returns NULL, although an entry came in the meantime.
late_entry : woken two true ≡ ok (two, null)
unfolding woken
late_entry = refl

add0-IsAdded_example :
    (rfq' : Fifoq ℕ) × (p : Option ℕ) × (add0 two 30 ≡ ok (rfq', p))
    × IsFifoq rfq' []
    × IsAdded two 30 rfq' p
add0-IsAdded_example = add0-IsAdded two [] 30 two-IsFifoq

pop0-IsPopped_example :
    (rfq' : Fifoq ℕ) × (r : Popped) × (pop0 two true ≡ ok (rfq', r)) × IsPopped two [] true rfq' r
pop0-IsPopped_example = pop0-IsPopped two [] true two-IsFifoq

reachable-IsFifoq_example : IsFifoq one (0 ∷ [])
reachable-IsFifoq_example = reachable-IsFifoq one (0 ∷ []) one-IsReachable

calls-IsReachable_example :
    Succeeds (add0 one 40)
    × Succeeds (pop0 one false)
    × All (λ e. Succeeds (elm_release one e)) (0 ∷ [])
calls-IsReachable_example = calls-IsReachable one (0 ∷ []) 40 false one-IsReachable

destroy-IsReachable_example :
    (rfq' : Fifoq ℕ) × (destroy one ≡ ok rfq')
    × (rfq'.queue ≡ [])
    × All (λ e. cell rfq'.heap e ≡ none) (1 ∷ [])
    × All (λ e. refs rfq'.heap e ≡ 1) (0 ∷ [])
destroy-IsReachable_example = destroy-IsReachable one (0 ∷ []) one-IsReachable

-- a queue whose only element has the queue's reference alone
abbrev withdrawn : Fifoq ℕ
withdrawn = record first { heap = elm 1 10 ∷ [] }

-- It frees the element, releases it again, and reads what was freed.
pop_withdrawn : pop0 withdrawn true ≡ fault
unfolding pop0 elm_release
pop_withdrawn = refl

-- the memory of a caller who did not clear it
abbrev uncleared : Fifoq ℕ
uncleared = init (some (record withdrawn { cnt = negsuc 4; max_size = pos 0 }))

abbrev popped_from : Run (Fifoq ℕ × Option ℕ) → Run (Fifoq ℕ × Popped)
popped_from (ok (rfq, p)) = pop0 rfq true
popped_from _ = fault

-- rd_fifoq_init leaves a count there, and the assertion of rd_fifoq_pop0 fails.
pop_uncleared : popped_from (add0 uncleared 10) ≡ fault
unfolding add0 pop0 init
pop_uncleared = refl
