-- ===== src/Text/Keep.antt =====
-- How long a text that rd_tsprintf returned stays, and what rd_snprintf_cat appends.
use librd.Common.{
  ℕ, zero, suc, ◌+◌, ◌-◌, ◌%◌, ◌<◌, ◌≤◌, ◌≡◌, ◌≢◌, refl, ap, sym, ◌∙◌, arith, false, Option, none,
  some, List, [], ◌∷◌, ◌++◌, length, length-append, get_elem?, take, leb, ◌==◌, inr,
}
use librd.Common.Run.{Run, ok, ◌>>=◌}
use librd.Text.Format.{
  Cyclic, cyclic_get, tsprintf, snprintf_cat, IsReady, IsCyclic, cyclic_get-IsReady,
  format_into-IsReady,
}

-- calls of rd_tsprintf, one after the other
abbrev pub calls : Cyclic → List (Option (List ℕ)) → Run Cyclic
calls cyc [] = ok cyc
calls cyc (t ∷ ts) = tsprintf cyc t >>= λ (cyc', i). calls cyc' ts

cyclic_get-next :
    (cyc : Cyclic) → IsReady cyc → cyclic_get cyc 64 ≡ record cyc { i = (cyc.i + 1) % 64 }
unfolding cyclic_get
cyclic_get-next cyc r =
    let size = r.size in
    let old : (cyc.size == 0) ≡ false = ground (arith, size) in
    rw old (λ k. record cyc { i = (cyc.i + 1) % size k })

-- a call on allocated buffers: it writes to the next buffer, or to none
tsprintf-next :
    (cyc : Cyclic) (t : Option (List ℕ))
    → IsReady cyc
    → (cyc' : Cyclic) × (r : Option ℕ) × (tsprintf cyc t ≡ ok (cyc', r))
      × IsReady cyc'
      × (cyc'.i ≡ (cyc.i + 1) % 64)
      × ((j : ℕ) → (cyc.i + 1) % 64 ≢ j → get_elem? cyc'.buf j ≡ get_elem? cyc.buf j)
unfolding tsprintf
tsprintf-next cyc none r =
    let next = cyclic_get-next cyc r in
    (
      cyclic_get cyc 64,
      none,
      refl,
      cyclic_get-IsReady cyc (inr r),
      ap (λ c. Cyclic.i c) next,
      λ j a. ap (λ c. get_elem? (Cyclic.buf c) j) next,
    )
tsprintf-next cyc (some text) r =
    let next = cyclic_get-next cyc r in
    let at = ap (λ c. Cyclic.i c) next in
    let (cyc', run, ready, same, _, others) =
      format_into-IsReady (cyclic_get cyc 64) text (cyclic_get-IsReady cyc (inr r)) in
    (
      cyc',
      some (cyclic_get cyc 64).i,
      run,
      ready,
      same ∙ at,
      λ j a. others j (λ p. a (sym at ∙ p)) ∙ ap (λ c. get_elem? (Cyclic.buf c) j) next,
    )

calls-keep :
    (ts : List (Option (List ℕ))) (cyc : Cyclic) (j k : ℕ) (text : List ℕ)
    → IsReady cyc
    → cyc.i ≡ (j + k) % 64
    → j < 64
    → k + length ts < 64
    → get_elem? cyc.buf j ≡ some (some text)
    → (cyc' : Cyclic) × (calls cyc ts ≡ ok cyc') × (get_elem? cyc'.buf j ≡ some (some text))
calls-keep [] cyc j k text r at low few here = (cyc, refl, here)
calls-keep (t ∷ ts) cyc j k text r at low few here =
    let (cyc1, _, run, ready, next, others) = tsprintf-next cyc t r in
    let apart : (cyc.i + 1) % 64 ≢ j = λ p. omega (arith, p, at, low, few) in
    let (cyc2, run', kept) =
      calls-keep ts cyc1 j (k + 1) text ready (omega (arith, next, at)) low (omega (arith, few))
        (others j apart ∙ here) in
    (cyc2, (λ i. run i >>= λ (c, o). calls c ts) ∙ run', kept)

-- rd_tsprintf returns a buffer with the whole formatted text, on its first call too and after
-- rd_string_thread_cleanup, and fewer than 64 further calls leave that buffer as it is, whatever they
-- format.
pub tsprintf-kept :
    (cyc : Cyclic) (text : List ℕ) (ts : List (Option (List ℕ)))
    → IsCyclic cyc
    → length ts < 64
    → (cyc' : Cyclic) × (i : ℕ) × (cyc'' : Cyclic) × (tsprintf cyc (some text) ≡ ok (cyc', some i))
      × (get_elem? cyc'.buf i ≡ some (some text))
      × (calls cyc' ts ≡ ok cyc'')
      × (get_elem? cyc''.buf i ≡ some (some text))
unfolding tsprintf
tsprintf-kept cyc text ts v few =
    let start = cyclic_get-IsReady cyc v in
    let at = start.at in
    let (cyc', run, ready, same, here, _) = format_into-IsReady (cyclic_get cyc 64) text start in
    let (cyc'', run', kept) =
      calls-keep ts cyc' (cyclic_get cyc 64).i 0 text ready (omega (arith, same, at)) at
        (omega (arith, few)) here in
    (cyc', (cyclic_get cyc 64).i, cyc'', run, here, run', kept)

take_append : (a b : List ℕ) (n : ℕ) → length a ≤ n → take n (a ++ b) ≡ a ++ take (n - length a) b
take_append [] b n h = ap (λ k. take k b) (omega arith)
take_append (x ∷ a) b zero h = absurd (omega (arith, h))
take_append (x ∷ a) b (suc n) h =
    ap (λ r. x ∷ r) (take_append a b n (omega (arith, h)))
    ∙ ap (λ k. x ∷ a ++ take k b) (omega arith)

-- When the text in the buffer is shorter than the buffer, rd_snprintf_cat leaves the concatenation
-- there, cut to the buffer with its zero, and returns its full length.
pub snprintf_cat-append :
    (str text : List ℕ) (size : ℕ)
    → length str < size
    → snprintf_cat str size text ≡ (take (size - 1) (str ++ text), some (length (str ++ text)))
unfolding snprintf_cat
snprintf_cat-append str text size room =
    let fits : leb size (length str) ≡ false = ground (arith, room) in
    let less : size - length str - 1 ≡ size - 1 - length str = omega arith in
    let cut = take_append str text (size - 1) (omega (arith, room)) in
    let all = length-append str text in
    rw fits (λ i. ((ap (λ n. str ++ take n text) less ∙ sym cut) i, some (sym all i)))
