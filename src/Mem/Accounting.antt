-- ===== src/Mem/Accounting.antt =====
-- The counters of a memory context that tracks its allocations.
use librd.Common.{
  ℕ, ◌+◌, ◌-◌, ◌%◌, ◌^◌, ◌<◌, ◌≤◌, ◌≡◌, ◌≢◌, refl, ap, ◌∙◌, arith, true, false, some, List, [], ◌∷◌,
  ◌++◌, All, length, length-append, ltb, ◌==◌, ==_iff, inl, inr, if◌then◌else◌, IsU32, IsU64,
  Bool-cases, lt→ltb,
}
use librd.Common.Run.{ok}
use librd.Mem.{
  MemctxPtr, Memctx, is_tracked, track, count_alloc, memctx_alloc, untrack, sub64, memctx_free0,
  memctx_ptr_free, freeall_loop, memctx_freeall,
}

-- the sum of the sizes of the allocations
abbrev pub total : List MemctxPtr → ℕ
total [] = 0
total (r ∷ rs) = r.size + total rs

-- The counters are those of the allocations listed, and have not overflowed.
pub record IsMemctx (rmc : Memctx) : Type 0 where
  pub tracked : is_tracked rmc.flags ≡ true
  pub counted : rmc.out ≡ length rmc.ptrs
  pub summed : rmc.bytes_out ≡ total rmc.ptrs
  pub few : IsU32 (length rmc.ptrs)
  pub small : IsU64 (total rmc.ptrs)

total-append : (rs qs : List MemctxPtr) → total (rs ++ qs) ≡ total rs + total qs
total-append [] qs = omega arith
total-append (r ∷ rs) qs = omega (arith, total-append rs qs)

small_mod32 : (n : ℕ) → n < 2 ^ 32 → n % 2 ^ 32 ≡ n
small_mod32 n h = omega arith

small_mod64 : (n : ℕ) → n < 2 ^ 64 → n % 2 ^ 64 ≡ n
small_mod64 n h = omega arith

sub64-le : (x n : ℕ) → x < 2 ^ 64 → n ≤ x → sub64 x n ≡ x - n
sub64-le x n h k = omega arith

-- rd_memctx_alloc of `n` bytes keeps the counters, if neither overflows and `n` is below 2 ^ 32; the
-- allocation is listed behind the others.
pub memctx_alloc-IsMemctx :
    (rmc : Memctx) (n p : ℕ)
    → IsMemctx rmc
    → IsU32 n
    → IsU32 (length rmc.ptrs + 1)
    → IsU64 (total rmc.ptrs + n)
    → (rmc' : Memctx) × (memctx_alloc rmc n (some p) ≡ ok (rmc', some p))
      × IsMemctx rmc'
      × (rmc'.ptrs ≡ rmc.ptrs ++ record { ptr = p; size = n } ∷ [])
unfolding memctx_alloc
memctx_alloc-IsMemctx rmc n p wf hn hl ht =
    let new : List MemctxPtr = record { ptr = p; size = n % 2 ^ 32 } ∷ [] in
    let size = small_mod32 n hn in
    let len = length-append rmc.ptrs new in
    let sum = total-append rmc.ptrs new in
    let more : total (rmc.ptrs ++ new) ≡ total rmc.ptrs + n = omega (arith, sum, size) in
    let counted = wf.counted in
    let summed = wf.summed in
    (
      count_alloc (track rmc p n) n,
      rw (wf.tracked) refl,
      record {
        tracked = wf.tracked;
        counted =
            small_mod32 (rmc.out + 1) (omega (arith, counted, hl)) ∙ omega (arith, counted, len);
        summed =
            small_mod64 (rmc.bytes_out + n) (omega (arith, summed, ht))
            ∙ omega (arith, summed, more);
        few = omega (arith, len, hl);
        small = omega (arith, more, ht);
      },
      ap (λ m. rmc.ptrs ++ record { ptr = p; size = m } ∷ []) size,
    )

untrack-found :
    (front back : List MemctxPtr) (p n : ℕ)
    → All (λ r. r.ptr ≢ p) front
    → untrack (front ++ record { ptr = p; size = n } ∷ back) p ≡ some (front ++ back)
untrack-found [] back p n h = let same : (p == p) ≡ true = ground arith in rw (same) refl
untrack-found (r ∷ front) back p n h =
    let apart = h.0 in
    let other : (r.ptr == p) ≡ false = ground (arith, apart) in
    rw (other, untrack-found front back p n h.1) refl

given_size : (x n : ℕ) → x < 2 ^ 64 → n ≤ x → (if n == 0 then x else sub64 x (n % 2 ^ 64)) ≡ x - n
given_size x n h k = elim (Bool-cases (n == 0)) [
  | inl e ↦ let z = (==_iff n 0).0 e in rw (e) (omega (arith, z))
  | inr e ↦ let m = small_mod64 n (omega (arith, h, k)) in rw (e, m) (sub64-le x n h k)
]

removed_length :
    (front back : List MemctxPtr) (r : MemctxPtr)
    → length (front ++ r ∷ back) ≡ length (front ++ back) + 1
removed_length [] back r = omega arith
removed_length (f ∷ front) back r = omega (arith, removed_length front back r)

removed_total :
    (front back : List MemctxPtr) (r : MemctxPtr)
    → total (front ++ r ∷ back) ≡ total (front ++ back) + r.size
removed_total [] back r = omega arith
removed_total (f ∷ front) back r = omega (arith, removed_total front back r)

-- a freed allocation, where `n` is the size that the caller gives
freed :
    (rmc : Memctx) (front back : List MemctxPtr) (p s n : ℕ)
    → IsMemctx rmc
    → rmc.ptrs ≡ front ++ record { ptr = p; size = s } ∷ back
    → All (λ r. r.ptr ≢ p) front
    → n ≤ total (front ++ back) + s
    → memctx_free0 rmc p n
      ≡ ok (record rmc {
        out = length (front ++ back);
        bytes_out = total (front ++ back) + s - n;
        ptrs = front ++ back;
      })
unfolding memctx_free0
freed rmc front back p s n wf listed first le =
    let counted = wf.counted in
    let summed = wf.summed in
    let small = wf.small in
    let len = ap length listed ∙ removed_length front back _ in
    let sum = ap total listed ∙ removed_total front back _ in
    let out : rmc.out - 1 ≡ length (front ++ back) = omega (arith, counted, len) in
    let some_out : ltb 0 rmc.out ≡ true = lt→ltb 0 rmc.out (omega (arith, counted, len)) in
    let bytes : (if n == 0 then rmc.bytes_out else sub64 rmc.bytes_out (n % 2 ^ 64))
        ≡ total (front ++ back) + s - n =
      given_size rmc.bytes_out n (omega (arith, summed, small)) (omega (arith, summed, sum, le))
      ∙ omega (arith, summed, sum) in
    let found = ap (λ rs. untrack rs p) listed ∙ untrack-found front back p s first in
    rw (some_out, wf.tracked, found, out, bytes) refl

-- rd_memctx_free0 of an allocation whose size is given keeps the counters and takes the allocation
-- from the list.
pub memctx_free0-IsMemctx :
    (rmc : Memctx) (front back : List MemctxPtr) (p n : ℕ)
    → IsMemctx rmc
    → rmc.ptrs ≡ front ++ record { ptr = p; size = n } ∷ back
    → All (λ r. r.ptr ≢ p) front
    → (rmc' : Memctx) × (memctx_free0 rmc p n ≡ ok rmc')
      × IsMemctx rmc'
      × (rmc'.ptrs ≡ front ++ back)
memctx_free0-IsMemctx rmc front back p n wf listed first =
    let few = wf.few in
    let small = wf.small in
    let len = ap length listed ∙ removed_length front back _ in
    let sum = ap total listed ∙ removed_total front back _ in
    (
      _,
      freed rmc front back p n n wf listed first (omega arith),
      record {
        tracked = wf.tracked;
        counted = refl;
        summed = omega arith;
        few = omega (arith, few, len);
        small = omega (arith, small, sum);
      },
      refl,
    )

-- rd_memctx_free, which passes the size 0, takes the allocation from the list and leaves its size in
-- `rmc_bytes_out`.
pub memctx_free0-unsized :
    (rmc : Memctx) (front back : List MemctxPtr) (p s : ℕ)
    → IsMemctx rmc
    → rmc.ptrs ≡ front ++ record { ptr = p; size = s } ∷ back
    → All (λ r. r.ptr ≢ p) front
    → (rmc' : Memctx) × (memctx_free0 rmc p 0 ≡ ok rmc')
      × (rmc'.ptrs ≡ front ++ back)
      × (rmc'.out ≡ length rmc'.ptrs)
      × (rmc'.bytes_out ≡ total rmc'.ptrs + s)
memctx_free0-unsized rmc front back p s wf listed first =
    (_, freed rmc front back p s 0 wf listed first (omega arith), refl, refl, omega arith)

ptr_free-counts :
    (rmc : Memctx) (r : MemctxPtr) (rest : List MemctxPtr) (t : ℕ)
    → rmc.out ≡ length rest + 1
    → rmc.bytes_out ≡ r.size + t
    → r.size + t < 2 ^ 64
    → memctx_ptr_free rmc r rest ≡ ok (record rmc { out = length rest; bytes_out = t; ptrs = rest })
unfolding memctx_ptr_free
ptr_free-counts rmc r rest t hn hb hs =
    let some_out : ltb 0 rmc.out ≡ true = lt→ltb 0 rmc.out (omega (arith, hn)) in
    let out : rmc.out - 1 ≡ length rest = omega (arith, hn) in
    elim (Bool-cases (r.size == 0)) [
      | inl e ↦
          let z = (==_iff r.size 0).0 e in
          let b : rmc.bytes_out ≡ t = omega (arith, z, hb) in rw (some_out, out, e, b) refl
      | inr e ↦
          let some_bytes : ltb 0 rmc.bytes_out ≡ true = ground (arith, hb, e) in
          let b : sub64 rmc.bytes_out r.size ≡ t =
            sub64-le rmc.bytes_out r.size (omega (arith, hb, hs)) (omega (arith, hb))
            ∙ omega (arith, hb) in
          rw (some_out, out, e, some_bytes, b) refl
    ]

freeall_loop-total :
    (rs : List MemctxPtr) (rmc : Memctx) (sum : ℕ)
    → rmc.ptrs ≡ rs
    → rmc.out ≡ length rs
    → rmc.bytes_out ≡ total rs
    → sum + total rs < 2 ^ 64
    → freeall_loop rs rmc sum
      ≡ ok (record rmc { out = 0; bytes_out = 0; ptrs = [] }, sum + total rs)
unfolding freeall_loop
freeall_loop-total [] rmc sum hp hn hb hs =
    let s : sum ≡ sum + 0 = omega arith in
    λ i. ok (record rmc { out = hn i; bytes_out = hb i; ptrs = hp i }, s i)
freeall_loop-total (r ∷ rest) rmc sum hp hn hb hs =
    let free = ptr_free-counts rmc r rest (total rest) (omega (arith, hn)) hb (omega (arith, hs)) in
    let next : Memctx = record rmc { out = length rest; bytes_out = total rest; ptrs = rest } in
    let add : (sum + r.size) % 2 ^ 64 ≡ sum + r.size = small_mod64 _ (omega (arith, hs)) in
    let done = freeall_loop-total rest next (sum + r.size) refl refl refl (omega (arith, hs)) in
    let same : sum + r.size + total rest ≡ sum + (r.size + total rest) = omega arith in
    rw (free, add, done, same) refl

-- rd_memctx_freeall on a context whose counters are right frees every allocation, breaks no
-- assertion, returns the sum of their sizes, which was `rmc_bytes_out`, and leaves both counters at 0.
pub memctx_freeall-total :
    (rmc : Memctx)
    → IsMemctx rmc
    → memctx_freeall rmc ≡ ok (record rmc { out = 0; bytes_out = 0; ptrs = [] }, rmc.bytes_out)
unfolding memctx_freeall
memctx_freeall-total rmc wf =
    let done =
      freeall_loop-total rmc.ptrs rmc 0 refl wf.counted wf.summed (omega (arith, wf.small)) in
    let all : 0 + total rmc.ptrs ≡ rmc.bytes_out = omega (arith, wf.summed) in
    rw (wf.tracked, done, all) refl
