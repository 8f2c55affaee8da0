-- ===== src/Lru/Order.antt =====
-- The order in which rdlru.c gives its entries back.
use librd.Common.{
  ℕ, zero, suc, ◌-◌, ◌+◌, ◌≡◌, refl, ap, ◌∙◌, sym, arith, Option, none, some, List, [], ◌∷◌, ◌++◌,
  length, length-append, ltb, true, lt→ltb,
}
use mathlib.Core.List.{append-nil}
use librd.Common.Run.{Run, ok, ◌>>=◌}
use librd.Lru.{
  Lru, lru_new, lru_elm_destroy, lru_push, lru_pop, lru_shift, lru_destroy_loop, lru_destroy,
  last_elm, with_last,
}

module _ {ℓ} {A : Type ℓ} where
  -- the counter is the number of entries
  abbrev pub IsLru : Lru A → Type 0
  IsLru rlru = rlru.cnt ≡ length rlru.elms

  last_elm-append : (xs : List A) (x : A) → last_elm (xs ++ x ∷ []) ≡ some (x, xs)
  last_elm-append [] x = refl
  last_elm-append (y ∷ xs) x = ap (with_last y) (last_elm-append xs x)

  lru_pop-last :
      (rlru : Lru A) (xs : List A) (x : A)
      → IsLru rlru
      → rlru.elms ≡ xs ++ x ∷ []
      → lru_pop rlru ≡ ok (record { cnt = length xs; elms = xs }, some x)
  unfolding lru_pop lru_elm_destroy
  lru_pop-last rlru xs x wf h =
      let len = ap length h ∙ length-append xs (x ∷ []) in
      let some_in : ltb 0 rlru.cnt ≡ true = lt→ltb 0 rlru.cnt (omega (arith, wf, len)) in
      let less : rlru.cnt - 1 ≡ length xs = omega (arith, wf, len) in
      let last = ap last_elm h ∙ last_elm-append xs x in rw (last, lru_pop, some_in, less) refl

  -- On a list whose counter is the number of its entries, rd_lru_shift after rd_lru_push returns the
  -- entry pushed and restores the list and its counter.
  pub lru_shift-push :
      (rlru : Lru A) (y : A) → IsLru rlru → lru_shift (lru_push rlru y) ≡ ok (rlru, some y)
  unfolding lru_shift lru_push lru_elm_destroy
  lru_shift-push rlru y wf =
      let more : ltb 0 (rlru.cnt + 1) ≡ true = lt→ltb 0 (rlru.cnt + 1) (omega arith) in
      let back : rlru.cnt + 1 - 1 ≡ rlru.cnt = omega arith in rw (more, back) refl

  abbrev pub push_all : Lru A → List A → Lru A
  push_all rlru [] = rlru
  push_all rlru (x ∷ xs) = push_all (lru_push rlru x) xs

  abbrev add_popped : Option A → Lru A × List A → Run (Lru A × List A)
  add_popped none (rlru, xs) = ok (rlru, xs)
  add_popped (some x) (rlru, xs) = ok (rlru, x ∷ xs)

  -- what `n` calls of rd_lru_pop return
  abbrev pub pop_times : ℕ → Lru A → Run (Lru A × List A)
  pop_times zero rlru = ok (rlru, [])
  pop_times (suc n) rlru = lru_pop rlru >>= λ (rlru', p). pop_times n rlru' >>= add_popped p

  abbrev youngest_first : List A → List A
  youngest_first [] = []
  youngest_first (x ∷ xs) = youngest_first xs ++ x ∷ []

  append_middle : (xs ys : List A) (x : A) → (xs ++ x ∷ []) ++ ys ≡ xs ++ x ∷ ys
  append_middle [] ys x = refl
  append_middle (z ∷ xs) ys x = ap (λ l. z ∷ l) (append_middle xs ys x)

  length-youngest_first : (xs : List A) → length (youngest_first xs) ≡ length xs
  length-youngest_first [] = refl
  length-youngest_first (x ∷ xs) =
      omega (arith, length-append (youngest_first xs) (x ∷ []), length-youngest_first xs)

  push_all-elms :
      (xs : List A) (rlru : Lru A)
      → push_all rlru xs
        ≡ record { cnt = rlru.cnt + length xs; elms = youngest_first xs ++ rlru.elms }
  unfolding lru_push
  push_all-elms [] rlru =
      let n : rlru.cnt ≡ rlru.cnt + 0 = omega arith in λ i. record rlru { cnt = n i }
  push_all-elms (x ∷ xs) rlru =
      let m : rlru.cnt + 1 + length xs ≡ rlru.cnt + suc (length xs) = omega arith in
      push_all-elms xs (lru_push rlru x)
      ∙ (λ i. record { cnt = m i; elms = sym (append_middle (youngest_first xs) rlru.elms x) i })

  pop_times-all :
      (xs : List A) (rlru : Lru A)
      → IsLru rlru
      → rlru.elms ≡ youngest_first xs
      → pop_times (length xs) rlru ≡ ok (record { cnt = 0; elms = [] }, xs)
  pop_times-all [] rlru wf h = λ i. ok (record { cnt = (wf ∙ ap length h) i; elms = h i }, [])
  pop_times-all (x ∷ xs) rlru wf h =
      let rest : Lru A = record { cnt = length (youngest_first xs); elms = youngest_first xs } in
      let now = lru_pop-last rlru (youngest_first xs) x wf h in
      let later = pop_times-all xs rest refl refl in rw (now, later) refl

  -- Entries pushed onto a new list come back from rd_lru_pop in the order in which they were pushed,
  -- the oldest first, and leave the list empty with its counter at 0. No assertion fails.
  pub pop-push_order :
      (xs : List A) → pop_times (length xs) (push_all lru_new xs) ≡ ok (lru_new, xs)
  unfolding lru_new
  pop-push_order xs =
      let all = push_all-elms xs lru_new in
      let len = length-youngest_first xs in
      let elms = append-nil (youngest_first xs) in
      pop_times-all xs (push_all lru_new xs)
        (ap (λ l. l.cnt) all
          ∙ omega (arith, len)
          ∙ sym (ap (λ l. length l.elms) all ∙ ap length elms))
        (ap (λ l. l.elms) all ∙ elms)

  destroy_elms :
      (xs : List A) (rlru : Lru A)
      → IsLru rlru
      → rlru.elms ≡ xs
      → lru_destroy_loop xs rlru ≡ ok (record { cnt = 0; elms = [] })
  unfolding lru_destroy_loop lru_elm_destroy
  destroy_elms [] rlru wf h = λ i. ok (record { cnt = (wf ∙ ap length h) i; elms = h i })
  destroy_elms (x ∷ xs) rlru wf h =
      let len = ap length h in
      let some_in : ltb 0 rlru.cnt ≡ true = lt→ltb 0 rlru.cnt (omega (arith, wf, len)) in
      let less : rlru.cnt - 1 ≡ length xs = omega (arith, wf, len) in
      let rest : Lru A = record { cnt = rlru.cnt - 1; elms = xs } in
      rw (some_in) (destroy_elms xs rest less refl)

  -- On a list whose counter is the number of its entries, rd_lru_destroy frees every entry and finds
  -- the counter above 0 each time; it ends with an empty list and a counter of 0.
  pub lru_destroy-empty :
      (rlru : Lru A) → IsLru rlru → lru_destroy rlru ≡ ok (record { cnt = 0; elms = [] })
  unfolding lru_destroy
  lru_destroy-empty rlru wf = destroy_elms rlru.elms rlru wf refl
