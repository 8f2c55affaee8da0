-- ===== src/Buf/Examples.antt =====
-- Chains of buffers at concrete bytes.
use mathlib.Core.List.{append_assoc, append-nil}
use librd.Common.{
  drop, if◌then◌else◌, ℕ, ◌+◌, ◌≡◌, refl, arith, not, some, List, [], ◌∷◌, ◌++◌, length, replicate,
  length-replicate, ◌==◌, bit_and,
}
use librd.Common.Int.{ℤ, pos}
use librd.Common.Run.{Run, ok, fault}
use librd.Buf.{
  Bufh, head, structure, get_buf, pick_buf, append_data, move, serialize_mem, serialize,
  bufh_destroy,
}
use librd.Buf.Chain.{contents, IsBufh}
use librd.Buf.Append.{get_buf-append}
use librd.Buf.Move.{move-contents}
use librd.Buf.Serialize.{serialize_mem-contents, serialize-contents, TakesAll}
use librd.Buf.Destroy.{blocks, bufh_destroy-IsBufh}

-- `sizeof(rd_buf_t)` on a 64-bit platform, and memory that is never cleared
abbrev rb_size : ℕ
rb_size = 48

abbrev malloc : ℕ → List ℕ
malloc n = replicate n 170

-- two of four bytes used
abbrev two_used : Bufh
two_used = record {
  bufs = record { len = 2; olen = 4; flags = 0; orig = 7 ∷ 8 ∷ 170 ∷ 170 ∷ [] } ∷ [];
  len = 2;
  flags = 1;
  read_size = 256;
}

two_used-IsBufh : IsBufh two_used
two_used-IsBufh = record {
  each = (record { sized = refl; within = omega arith; small = omega arith }, tt);
  counted = refl;
  bounded = omega arith;
}

abbrev appended_bytes : Run (Bufh × ℕ) → List ℕ
appended_bytes (ok (rbh, i)) = contents rbh.bufs
appended_bytes fault = []
appended_bytes Run.out_of_fuel = []

-- Two more bytes go into the tail, and three into a buffer of their own.
append_runs :
    (appended_bytes (get_buf rb_size malloc two_used (some (9 ∷ 10 ∷ [])) 2 0)
      ≡ 7 ∷ 8 ∷ 9 ∷ 10 ∷ [])
    × (appended_bytes (get_buf rb_size malloc two_used (some (1 ∷ 2 ∷ 3 ∷ [])) 3 1)
        ≡ 7 ∷ 8 ∷ 1 ∷ 2 ∷ 3 ∷ [])
unfolding get_buf pick_buf append_data
append_runs = (refl, refl)

get_buf-append_example :
    (rbh' : Bufh) × (i : ℕ) × (get_buf rb_size malloc two_used (some (1 ∷ 2 ∷ 3 ∷ [])) 3 0
      ≡ ok (rbh', i))
    × IsBufh rbh'
    × (contents rbh'.bufs ≡ contents two_used.bufs ++ 1 ∷ 2 ∷ 3 ∷ [])
    × (rbh'.len ≡ two_used.len + 3)
get_buf-append_example =
    get_buf-append rb_size malloc (omega arith) (λ n. length-replicate n 170) two_used
      (1 ∷ 2 ∷ 3 ∷ []) 0 two_used-IsBufh (omega arith)

move-contents_example :
    let (dst', src') = move two_used two_used in
    IsBufh dst'
    × IsBufh src'
    × (contents dst'.bufs ≡ contents two_used.bufs ++ contents two_used.bufs)
    × (dst'.len ≡ two_used.len + two_used.len)
    × (src'.bufs ≡ [])
move-contents_example =
    move-contents two_used two_used two_used-IsBufh two_used-IsBufh (omega arith)

-- a memory that has room for four bytes
abbrev ones : List ℕ
ones = replicate 4 1

serialize_mem-contents_example :
    serialize_mem two_used.bufs ones 0
    ≡ ok (contents two_used.bufs ++ drop two_used.len ones, two_used.len)
serialize_mem-contents_example = serialize_mem-contents two_used ones two_used-IsBufh (omega arith)

serialize_mem_runs : serialize_mem two_used.bufs ones 0 ≡ ok (7 ∷ 8 ∷ 1 ∷ 1 ∷ [], 2)
unfolding serialize_mem
serialize_mem_runs = refl

-- A file that every write is put behind.
abbrev append_file : List ℕ → List ℕ → List ℕ
append_file w bytes = w ++ bytes

abbrev write_file : List ℕ → List ℕ → List ℕ × ℤ
write_file w bytes = (w ++ bytes, pos (length bytes))

write_file-TakesAll : TakesAll write_file append_file
write_file-TakesAll = record {
  returns = λ w bytes. refl;
  nothing = λ w. append-nil w;
  in_turn = λ w xs ys. append_assoc w xs ys;
}

serialize-contents_example :
    serialize write_file two_used.bufs [] 0
    ≡ (append_file [] (contents two_used.bufs), pos two_used.len)
serialize-contents_example =
    serialize-contents write_file append_file two_used [] two_used-IsBufh write_file-TakesAll

-- a chain that the caller allocated, with a buffer that owns its memory
abbrev owning : Bufh
owning = record {
  bufs = record { len = 1; olen = 2; flags = 1; orig = 7 ∷ 8 ∷ [] } ∷ two_used.bufs;
  len = 3;
  flags = 0;
  read_size = 256;
}

owning-IsBufh : IsBufh owning
owning-IsBufh = record {
  each = (record { sized = refl; within = omega arith; small = omega arith }, two_used-IsBufh.each);
  counted = refl;
  bounded = omega arith;
}

bufh_destroy-IsBufh_example :
    bufh_destroy owning
    ≡ ok (
      record owning { bufs = []; len = 0 },
      blocks owning.bufs ++ (if not (bit_and owning.flags 1 == 0) then head ∷ [] else []),
    )
bufh_destroy-IsBufh_example = bufh_destroy-IsBufh owning owning-IsBufh

destroy_two :
    bufh_destroy two_used
    ≡ ok (
      record two_used { bufs = []; len = 0 },
      structure (record { len = 0; olen = 4; flags = 0; orig = 7 ∷ 8 ∷ 170 ∷ 170 ∷ [] })
          ∷ head
          ∷ [],
    )
unfolding bufh_destroy
destroy_two = refl
