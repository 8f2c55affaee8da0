-- ===== src/Text/Format.antt =====
-- rd_tsprintf, rd_string_thread_cleanup and rd_snprintf_cat of rdstring.c. What vsnprintf formats is an
-- argument, or `none` for its error; a text is without the zero behind it.
use mathlib.Core.Path.{subst}
use librd.Common.{
  ℕ, zero, suc, ◌+◌, ◌-◌, ◌*◌, ◌%◌, ◌<◌, ◌≤◌, ◌≡◌, ◌≢◌, refl, ap, sym, ◌∙◌, arith, Bool, true,
  false, ◌&&◌, ◌||◌, ◌⊎◌, inl, inr, Option, none, some, List, [], ◌∷◌, ◌++◌, length, length-set,
  length-replicate, get_elem?, get_elem?-bound, get_elem?-set_self, get_elem?-set_ne, set, take,
  replicate, ltb, leb, ◌==◌, if◌then◌else◌,
}
use librd.Common.Run.{Run, ok, fault}

-- `struct rdstr_cyclic`; a buffer is NULL or has the text that was written to it
pub record Cyclic : Type 0 where
  pub size : ℕ
  pub buf : List (Option (List ℕ))
  pub len : List ℕ
  pub i : ℕ

-- rdstr_cyclic_get
unfoldable pub cyclic_get : Cyclic → ℕ → Cyclic
cyclic_get cyc size =
    if cyc.size == 0
    then record cyc { size = size; buf = replicate size none; len = replicate size 0 }
    else record cyc { i = (cyc.i + 1) % cyc.size }

-- the tests for a new allocation
abbrev pub wants_buffer : Option (List ℕ) → ℕ → ℕ → Bool
wants_buffer none cap n = true
wants_buffer (some b) cap n = ltb cap n || (ltb (n * 4) cap && ltb 64 cap)

-- from `len++` to the end of rd_tsprintf: the text is cut to the buffer
unfoldable pub format_into : Cyclic → List ℕ → Run (Cyclic × Option ℕ)
format_into cyc text =
    let n = length text + 1 in
    let write = λ (b : Option (List ℕ)) (cap : ℕ).
      let cap' = if wants_buffer b cap n then n else cap in
      ok (
        record cyc {
          buf = set cyc.buf cyc.i (some (take (cap' - 1) text));
          len = set cyc.len cyc.i cap';
        },
        some cyc.i,
      ) in
    elim (get_elem? cyc.buf cyc.i) [
      | none ↦ fault
      | some b ↦ elim (get_elem? cyc.len cyc.i) [ none ↦ fault | some cap ↦ write b cap ]
    ]

-- rd_tsprintf; the result is the index of the buffer, or `none` for NULL
unfoldable pub tsprintf : Cyclic → Option (List ℕ) → Run (Cyclic × Option ℕ)
tsprintf cyc none = ok (cyclic_get cyc 64, none)
tsprintf cyc (some text) = format_into (cyclic_get cyc 64) text

-- rd_string_thread_cleanup
unfoldable pub thread_cleanup : Cyclic → Cyclic
thread_cleanup cyc = if cyc.size == 0 then cyc else record cyc { size = 0; buf = []; len = [] }

-- rd_snprintf_cat: the text of the buffer, and the result, or `none` for -1
unfoldable pub snprintf_cat : List ℕ → ℕ → List ℕ → List ℕ × Option ℕ
snprintf_cat str size text =
    if leb size (length str)
    then (str, none)
    else (str ++ take (size - length str - 1) text, some (length str + length text))

-- what a thread's state is when its buffers are allocated
pub record IsReady (cyc : Cyclic) : Type 0 where
  pub size : cyc.size ≡ 64
  pub bufs : length cyc.buf ≡ 64
  pub lens : length cyc.len ≡ 64
  pub at : cyc.i < 64

-- a state that calls of rd_tsprintf and rd_string_thread_cleanup lead to
abbrev pub IsCyclic : Cyclic → Type 0
IsCyclic cyc = ((cyc.size ≡ 0) × (cyc.i < 64)) ⊎ IsReady cyc

pub take_all : (t : List ℕ) (k : ℕ) → length t ≤ k → take k t ≡ t
take_all [] zero h = refl
take_all [] (suc k) h = refl
take_all (x ∷ t) zero h = absurd (omega (arith, h))
take_all (x ∷ t) (suc k) h = ap (λ r. x ∷ r) (take_all t k (omega (arith, h)))

-- the buffer has room for the text and the zero
room :
    (b : Option (List ℕ)) (cap n : ℕ) → n + 1 ≤ (if wants_buffer b cap (n + 1) then n + 1 else cap)
room none cap n = omega arith
room (some b) cap n = ground arith

pub cyclic_get-IsReady : (cyc : Cyclic) → IsCyclic cyc → IsReady (cyclic_get cyc 64)
unfolding cyclic_get
cyclic_get-IsReady cyc (inl h) =
    let new : (cyc.size == 0) ≡ true = ground (arith, h.0) in
    rw new (record {
      size = refl;
      bufs = length-replicate {A = Option (List ℕ)} 64 none;
      lens = length-replicate {A = ℕ} 64 0;
      at = h.1;
    })
cyclic_get-IsReady cyc (inr r) =
    let size = r.size in
    let old : (cyc.size == 0) ≡ false = ground (arith, size) in
    let next : (cyc.i + 1) % cyc.size < 64 =
      subst (λ n. (cyc.i + 1) % n < 64) (sym size) (omega arith) in
    rw old (record { size = r.size; bufs = r.bufs; lens = r.lens; at = next })

-- the size of the buffer after the call
abbrev cap_after : Option (List ℕ) → ℕ → List ℕ → ℕ
cap_after b cap text = if wants_buffer b cap (length text + 1) then length text + 1 else cap

format_into-found :
    (cyc : Cyclic) (text : List ℕ) (b : Option (List ℕ)) (cap : ℕ)
    → get_elem? cyc.buf cyc.i ≡ some b
    → get_elem? cyc.len cyc.i ≡ some cap
    → format_into cyc text
      ≡ ok (
        record cyc {
          buf = set cyc.buf cyc.i (some (take (cap_after b cap text - 1) text));
          len = set cyc.len cyc.i (cap_after b cap text);
        },
        some cyc.i,
      )
unfolding format_into
format_into-found cyc text b cap here there = rw (here, format_into, there) refl

-- the call writes the whole text, to the buffer at `i` alone
pub format_into-IsReady :
    (cyc : Cyclic) (text : List ℕ)
    → IsReady cyc
    → (cyc' : Cyclic) × (format_into cyc text ≡ ok (cyc', some cyc.i))
      × IsReady cyc'
      × (cyc'.i ≡ cyc.i)
      × (get_elem? cyc'.buf cyc.i ≡ some (some text))
      × ((j : ℕ) → cyc.i ≢ j → get_elem? cyc'.buf j ≡ get_elem? cyc.buf j)
format_into-IsReady cyc text r =
    let at = r.at in
    let (b, here) = get_elem?-bound cyc.buf cyc.i (omega (arith, at, r.bufs)) in
    let (cap, there) = get_elem?-bound cyc.len cyc.i (omega (arith, at, r.lens)) in
    let cap' = cap_after b cap text in
    let fits = room b cap (length text) in
    let whole = take_all text (cap' - 1) (omega (arith, fits)) in
    let new = some (take (cap' - 1) text) in
    (
      record cyc { buf = set cyc.buf cyc.i new; len = set cyc.len cyc.i cap' },
      format_into-found cyc text b cap here there,
      record {
        size = r.size;
        bufs = length-set cyc.buf cyc.i new ∙ r.bufs;
        lens = length-set cyc.len cyc.i cap' ∙ r.lens;
        at = at;
      },
      refl,
      get_elem?-set_self cyc.buf cyc.i b new here ∙ (λ k. some (some (whole k))),
      λ j a. get_elem?-set_ne cyc.buf cyc.i j new a,
    )
