-- ===== src/Mem.antt =====
-- rdmem.c and rdmem.h: memory contexts, which count what they allocate, and structs that are
-- allocated together with their fields. A pointer that malloc returns is a number.
pub mod Accounting
mod Examples
use librd.Common.{
  ℕ, zero, suc, ◌+◌, ◌-◌, ◌%◌, ◌^◌, Bool, true, false, not, Option, none, some, List, [], ◌∷◌, ◌++◌,
  length, ltb, ◌==◌, if◌then◌else◌, bit_and, bit_or,
}
use librd.Common.Run.{Run, ok, fault, ◌>>=◌}

-- `rd_memctx_ptr_t`: the allocation, and its size as an `uint32_t`
pub record MemctxPtr : Type 0 where
  pub ptr : ℕ
  pub size : ℕ

-- `rd_memctx_t`; the name, the lock and the link are left out
pub record Memctx : Type 0 where
  pub out : ℕ
  pub bytes_out : ℕ
  pub flags : ℕ
  pub ptrs : List MemctxPtr

-- `BIT_TEST(flags, RD_MEMCTX_F_TRACK)`
abbrev pub is_tracked : ℕ → Bool
is_tracked flags = not (bit_and flags 1 == 0)

-- rd_memctx_init; the last step sets RD_MEMCTX_F_INITED
unfoldable pub memctx_init : ℕ → Memctx
memctx_init flags = record { out = 0; bytes_out = 0; flags = bit_or flags 256; ptrs = [] }

-- TAILQ_INSERT_TAIL of rd_memctx_ptr_new
abbrev pub track : Memctx → ℕ → ℕ → Memctx
track rmc p n = record rmc { ptrs = rmc.ptrs ++ record { ptr = p; size = n % 2 ^ 32 } ∷ [] }

-- the counters at the end of rd_memctx_alloc
abbrev pub count_alloc : Memctx → ℕ → Memctx
count_alloc rmc n = record rmc {
  out = (rmc.out + 1) % 2 ^ 32;
  bytes_out = (rmc.bytes_out + n) % 2 ^ 64;
}

-- rd_memctx_alloc, where malloc or calloc returns `given`: NULL is written to with
-- RD_MEMCTX_F_TRACK, and else returned
unfoldable pub memctx_alloc : Memctx → ℕ → Option ℕ → Run (Memctx × Option ℕ)
memctx_alloc rmc n given =
    if is_tracked rmc.flags
    then elim given [ none ↦ fault | some p ↦ ok (count_alloc (track rmc p n) n, some p) ]
    else ok (count_alloc rmc n, given)

abbrev pub put_first : MemctxPtr → Option (List MemctxPtr) → Option (List MemctxPtr)
put_first r none = none
put_first r (some rs) = some (r ∷ rs)

-- TAILQ_REMOVE of the allocation at `p`; there is no result if it is not in the list
abbrev pub untrack : List MemctxPtr → ℕ → Option (List MemctxPtr)
untrack [] p = none
untrack (r ∷ rs) p = let rest = put_first r (untrack rs p) in if r.ptr == p then some rs else rest

-- `bytes_out -= n` on an `uint64_t`
abbrev pub sub64 : ℕ → ℕ → ℕ
sub64 x n = (x + 2 ^ 64 - n) % 2 ^ 64

-- rd_memctx_free0. The assertion on `rmc_bytes_out - size` compares an unsigned number and holds.
unfoldable pub memctx_free0 : Memctx → ℕ → ℕ → Run Memctx
memctx_free0 rmc p n =
    let bytes = if n == 0 then rmc.bytes_out else sub64 rmc.bytes_out (n % 2 ^ 64) in
    let counted = record rmc { out = rmc.out - 1; bytes_out = bytes } in
    if ltb 0 rmc.out
    then (if is_tracked rmc.flags
        then elim (untrack rmc.ptrs p) [
          | none ↦ fault
          | some rest ↦ ok (record counted { ptrs = rest })
        ]
        else ok counted)
    else fault

-- rd_memctx_ptr_free of the first allocation, `r`, where `rest` are the others
unfoldable pub memctx_ptr_free : Memctx → MemctxPtr → List MemctxPtr → Run Memctx
memctx_ptr_free rmc r rest =
    let fewer = record rmc { out = rmc.out - 1; ptrs = rest } in
    if ltb 0 rmc.out
    then (if r.size == 0
        then ok fewer
        else if ltb 0 rmc.bytes_out
        then ok (record fewer { bytes_out = sub64 rmc.bytes_out r.size })
        else fault)
    else fault

-- the loop of rd_memctx_freeall over the allocations, with `sum`
unfoldable pub freeall_loop : List MemctxPtr → Memctx → ℕ → Run (Memctx × ℕ)
unfolding memctx_ptr_free
freeall_loop [] rmc sum = ok (rmc, sum)
freeall_loop (r ∷ rest) rmc sum =
    memctx_ptr_free rmc r rest >>= λ rmc'. freeall_loop rest rmc' ((sum + r.size) % 2 ^ 64)

-- rd_memctx_freeall; `fault` is the assertion on the flag, or one of rd_memctx_ptr_free
unfoldable pub memctx_freeall : Memctx → Run (Memctx × ℕ)
unfolding freeall_loop
memctx_freeall rmc = if is_tracked rmc.flags then freeall_loop rmc.ptrs rmc 0 else fault

-- rd_memctx_destroy, after which the context is no longer in the list of all contexts
unfoldable pub memctx_destroy : Memctx → Run Memctx
unfolding memctx_freeall
memctx_destroy rmc =
    if is_tracked rmc.flags then (memctx_freeall rmc >>= λ (rmc', sum). ok rmc') else ok rmc
