-- ===== src/Lru/Examples.antt =====
-- Lists of entries that the theorems apply to.
use librd.Common.{ℕ, ◌≡◌, refl, none, List, [], ◌∷◌}
use librd.Common.Run.{ok}
use librd.Lru.{Lru, lru_new, lru_pop}
use librd.Lru.Order.{push_all, pop_times, pop-push_order}

-- 1 was pushed before 2
abbrev two : Lru ℕ
two = record { cnt = 2; elms = 2 ∷ 1 ∷ [] }

abbrev empty : Lru ℕ
empty = record { cnt = 0; elms = [] }

abbrev three : List ℕ
three = 7 ∷ 8 ∷ 9 ∷ []

nothing_popped : lru_pop empty ≡ ok (empty, none)
unfolding lru_pop
nothing_popped = refl

pop-push_order_example : pop_times 3 (push_all lru_new three) ≡ ok (lru_new, three)
pop-push_order_example = pop-push_order three
