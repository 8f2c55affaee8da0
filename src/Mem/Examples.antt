-- ===== src/Mem/Examples.antt =====
-- Memory contexts that the theorems apply to.
use librd.Common.{ℕ, ◌≡◌, refl, arith, none, List, [], ◌∷◌}
use librd.Common.Run.{ok, fault}
use librd.Mem.{MemctxPtr, Memctx, memctx_init, memctx_alloc, memctx_freeall, memctx_destroy}
use librd.Mem.Accounting.{IsMemctx, memctx_freeall-total}

abbrev ptr : ℕ → ℕ → MemctxPtr
ptr p n = record { ptr = p; size = n }

-- a tracking context with two allocations, of 10 and of 5 bytes
abbrev two : Memctx
two = record { out = 2; bytes_out = 15; flags = 257; ptrs = ptr 100 10 ∷ ptr 200 5 ∷ [] }

-- what is left of it without the first
abbrev one : List MemctxPtr
one = ptr 200 5 ∷ []

two-IsMemctx : IsMemctx two
two-IsMemctx = record {
  tracked = refl;
  counted = refl;
  summed = refl;
  few = omega arith;
  small = omega arith;
}

-- Without RD_MEMCTX_F_TRACK an allocation that fails is counted as well.
failed_alloc :
    memctx_alloc (memctx_init 0) 10 none
    ≡ ok (record { out = 1; bytes_out = 10; flags = 256; ptrs = [] }, none)
unfolding memctx_alloc memctx_init
failed_alloc = refl

-- With it, NULL is written to.
failed_tracked : memctx_alloc (memctx_init 1) 10 none ≡ fault
unfolding memctx_alloc memctx_init
failed_tracked = refl

destroyed : memctx_destroy two ≡ ok (record { out = 0; bytes_out = 0; flags = 257; ptrs = [] })
unfolding memctx_destroy
destroyed = refl

memctx_freeall-total_example :
    memctx_freeall two ≡ ok (record { out = 0; bytes_out = 0; flags = 257; ptrs = [] }, 15)
memctx_freeall-total_example = memctx_freeall-total two two-IsMemctx
