-- ===== src/Buf.antt =====
-- rdbuf.c and rdbuf.h: chains of buffers. A pointer to a buffer of a chain is its position there. A
-- buffer holds the memory at `rb_orig` as a list of bytes; `rb_data` is never moved from `rb_orig`.
pub mod Memory
pub mod Chain
pub mod Append
pub mod Move
pub mod Serialize
pub mod Destroy
mod Examples
use librd.Common.{
  ℕ, zero, suc, ◌+◌, ◌-◌, ◌%◌, ◌^◌, Bool, true, false, not, ◌&&◌, Option, none, some, List, [], ◌∷◌,
  ◌++◌, length, get_elem?, take, drop, ltb, leb, ◌==◌, if◌then◌else◌, bit_and,
}
use librd.Common.Int.{ℤ, pos, negsuc}
use librd.Common.Run.{Run, ok, fault, ◌>>=◌}

-- `rd_buf_t`
pub record Buf : Type 0 where
  pub len : ℕ
  pub olen : ℕ
  pub flags : ℕ
  pub orig : List ℕ

-- `rd_bufh_t`
pub record Bufh : Type 0 where
  pub bufs : List Buf
  pub len : ℕ
  pub flags : ℕ
  pub read_size : ℕ

-- `BIT_TEST(flags, RD_BUF_F_OWNER)`
abbrev pub is_owner : ℕ → Bool
is_owner flags = not (bit_and flags 1 == 0)

-- RD_BUFH_F_FREE and RD_BUF_READ_SIZE
abbrev free_flag : ℕ
free_flag = 1

abbrev default_read_size : ℕ
default_read_size = 256

module _ {ℓ} {A : Type ℓ} where
  abbrev pub modify : List A → ℕ → (A → A) → List A
  modify [] i f = []
  modify (x ∷ xs) zero f = f x ∷ xs
  modify (x ∷ xs) (suc i) f = x ∷ modify xs i f

  -- TAILQ_INSERT_AFTER behind position `i`
  abbrev pub insert_after : List A → ℕ → A → List A
  insert_after [] i y = y ∷ []
  insert_after (x ∷ xs) zero y = x ∷ y ∷ xs
  insert_after (x ∷ xs) (suc i) y = x ∷ insert_after xs i y

  -- TAILQ_REMOVE at position `i`
  abbrev pub remove_at : List A → ℕ → List A
  remove_at [] i = []
  remove_at (x ∷ xs) zero = xs
  remove_at (x ∷ xs) (suc i) = x ∷ remove_at xs i

  -- TAILQ_LAST
  abbrev pub last_place : List A → Option ℕ
  last_place [] = none
  last_place (x ∷ xs) = some (length xs)

-- `memcpy(mem + of, data, length data)`
abbrev pub write_at : List ℕ → ℕ → List ℕ → List ℕ
write_at mem of bytes = take of mem ++ bytes ++ drop (of + length bytes) mem

-- `x + n` for an `uint32_t`
abbrev pub add32 : ℕ → ℕ → ℕ
add32 x n = (x + n) % 2 ^ 32

-- `-x` for an `uint32_t`
abbrev pub neg32 : ℕ → ℕ
neg32 x = (2 ^ 32 - x) % 2 ^ 32

-- rd_bufh_update_len, for the buffer at position `i`
unfoldable pub update_len : Bufh → ℕ → ℕ → Bufh
update_len rbh i n = record rbh {
  bufs = modify rbh.bufs i (λ rb. record rb { len = add32 rb.len n });
  len = add32 rbh.len n;
}

-- rd_bufh_new; `given` is the caller's memory, which is cleared. A `read_size` of 0 is the default.
unfoldable pub bufh_new : Bool → ℕ → Bufh
bufh_new given read_size = record {
  bufs = [];
  len = 0;
  flags = if given then 0 else free_flag;
  read_size = if read_size == 0 then default_read_size else read_size;
}

-- rd_buf_remaining, as the unsigned number that it is compared as
abbrev pub remaining : Buf → ℕ
remaining rb = (rb.olen + 2 ^ 32 - rb.len) % 2 ^ 32

-- bytes written behind the data of the buffer at position `i`
abbrev pub write_behind : Bufh → ℕ → List ℕ → Bufh
write_behind rbh i bytes = record rbh {
  bufs = modify rbh.bufs i (λ b. record b { orig = write_at b.orig b.len bytes });
}

-- rd_buf_append_data; `fault` is the assertion, or a pointer to no buffer
unfoldable pub append_data : Bufh → ℕ → List ℕ → ℕ → Run Bufh
unfolding update_len
append_data rbh i bytes n = elim (get_elem? rbh.bufs i) [
  | none ↦ fault
  | some rb ↦
      if leb n (remaining rb)
      then ok (update_len (write_behind rbh i (take n bytes)) i n)
      else fault
]

-- rd_bufh_buf_insert
unfoldable pub buf_insert : Bufh → Option ℕ → Buf → Bufh
buf_insert rbh after rb = record rbh {
  bufs = elim after [ none ↦ rb ∷ rbh.bufs | some i ↦ insert_after rbh.bufs i rb ];
  len = add32 rbh.len rb.len;
}

-- whether the buffer at the tail takes `n` more bytes
abbrev pub tail_takes : List Buf → ℕ → Bool
tail_takes bufs n = elim (last_place bufs) [
  | none ↦ false
  | some i ↦ elim (get_elem? bufs i) [ none ↦ false | some tail ↦ leb n (remaining tail) ]
]

-- `sizeof(rd_buf_t)`, and the memory that `malloc` returns for each size
module _ (rb_size : ℕ) (malloc : ℕ → List ℕ) where
  -- rd_buf_new; `none` is a NULL pointer
  unfoldable pub buf_new : Option (List ℕ) → ℕ → ℕ → Buf
  buf_new bytes n flags =
      let room = if ltb n rb_size then rb_size else n in
      if is_owner flags
      then record { len = 0; olen = n; flags = flags; orig = elim bytes [ none ↦ [] | some b ↦ b ] }
      else record { len = 0; olen = room; flags = flags; orig = malloc room }

  -- the buffer of rd_bufh_get_buf before data is appended: its position, and the chain
  unfoldable pub pick_buf : Bufh → Option (List ℕ) → ℕ → ℕ → Bufh × ℕ
  unfolding buf_new buf_insert
  pick_buf rbh bytes n flags =
      if not (is_owner flags) && tail_takes rbh.bufs n
      then (rbh, length rbh.bufs - 1)
      else (buf_insert rbh (last_place rbh.bufs) (buf_new bytes n flags), length rbh.bufs)

  -- rd_bufh_get_buf, and so rd_bufh_append
  unfoldable pub get_buf : Bufh → Option (List ℕ) → ℕ → ℕ → Run (Bufh × ℕ)
  get_buf rbh bytes n flags =
      let (rbh', i) = pick_buf rbh bytes n flags in
      elim bytes [
        | none ↦ ok (rbh', i)
        | some b ↦ append_data rbh' i b n >>= λ rbh''. ok (rbh'', i)
      ]

  -- rd_bufh_prepend
  unfoldable pub prepend : Bufh → Option (List ℕ) → ℕ → ℕ → Bufh
  unfolding buf_new buf_insert
  prepend rbh bytes n flags = buf_insert rbh none (buf_new bytes n flags)

  -- rd_bufh_recv; `got` is what `recv` put in the memory, `none` its -1. The chain keeps the buffer
  -- that was picked, also on an error.
  unfoldable pub recv : Bufh → Option (List ℕ) → ℕ → Run (Bufh × Option ℕ)
  recv rbh got n = get_buf rbh none n 0 >>= λ (rbh', i). elim got [
    | none ↦ ok (rbh', none)
    | some bytes ↦ ok (update_len (write_behind rbh' i bytes) i (length bytes), some i)
  ]

  -- rd_bufh_vsprintf; `text` is what the format comes to, without the zero that is written behind it
  unfoldable pub vsprintf : Bufh → List ℕ → Run (Bufh × ℕ)
  vsprintf rbh text = get_buf rbh none (length text + 1) 0 >>= λ (rbh', i).
      ok (update_len (write_behind rbh' i (text ++ 0 ∷ [])) i (length text), i)

  -- rd_buf_vsprintf
  unfoldable pub buf_vsprintf : List ℕ → Buf
  unfolding buf_new
  buf_vsprintf text =
      let rb = buf_new none (length text + 1) 0 in
      record rb { orig = write_at rb.orig rb.len (text ++ 0 ∷ []); len = length text % 2 ^ 32 }

-- the loop of rd_bufh_move over the buffers of `src`, `tail` being the position behind which to link
unfoldable pub move_loop : Bufh → Option ℕ → List Buf → Bufh
unfolding buf_insert
move_loop dst tail [] = dst
move_loop dst tail (rb ∷ next) =
    let place : ℕ = elim tail [ none ↦ 0 | some i ↦ i + 1 ] in
    move_loop (buf_insert dst tail rb) (some place) next

-- rd_bufh_move: the new `dst` and `src`
unfoldable pub move : Bufh → Bufh → Bufh × Bufh
unfolding move_loop
move dst src = (move_loop dst (last_place dst.bufs) src.bufs, record src { bufs = []; len = 0 })

-- rd_bufh_serialize_binary_mem0 from `len` on: the memory at `dst` after it, and what it returns. A
-- copy that reads or writes beyond its memory is a `fault`.
unfoldable pub serialize_mem : List Buf → List ℕ → ℕ → Run (List ℕ × ℕ)
serialize_mem [] dst len = ok (dst, len)
serialize_mem (rb ∷ next) dst len =
    let rest =
      serialize_mem next (write_at dst len (take rb.len rb.orig)) ((len + rb.len) % 2 ^ 64) in
    if leb rb.len (length rb.orig) && leb (len + rb.len) (length dst) then rest else fault

-- rd_bufh_serialize with rd_bufh_serialize_binary and any writer but rd_bufh_write_mem. The writer
-- takes its state to the next, and returns a `ssize_t`; `sent` is `len` so far.
module _ {ℓ} {W : Type ℓ} (writer : W → List ℕ → W × ℤ) where
  -- what `r`, the writer's result, comes to: -1 ends with -1, 0 ends the loop, else it goes on
  abbrev pub after_write : W × ℤ → ℕ → (W → ℕ → W × ℤ) → W × ℤ
  after_write (w, pos zero) sent rest = (w, pos sent)
  after_write (w, pos (suc r)) sent rest = rest w ((sent + suc r) % 2 ^ 64)
  after_write (w, negsuc zero) sent rest = (w, negsuc 0)
  after_write (w, negsuc (suc r)) sent rest = rest w ((sent + 2 ^ 64 - (r + 2) % 2 ^ 64) % 2 ^ 64)

  unfoldable pub serialize : List Buf → W → ℕ → W × ℤ
  serialize [] w sent = (w, pos sent)
  serialize (rb ∷ next) w sent =
      let skip = serialize next w sent in
      if rb.len == 0
      then skip
      else after_write (writer w (take rb.len rb.orig)) sent (serialize next)

-- what `free` is called on: the memory of a buffer, a buffer itself, the head of a chain
pub data Block : Type 0 where
  memory : List ℕ → Block
  structure : Buf → Block
  head : Block

-- rd_buf_destroy0: what it frees, in order
unfoldable pub buf_destroy0 : Buf → List Block
buf_destroy0 rb =
    if is_owner rb.flags then memory rb.orig ∷ structure rb ∷ [] else structure rb ∷ []

-- rd_buf_destroy: the buffer at position `i` is unlinked, and freed with the length that is left of it
unfoldable pub buf_destroy : Bufh → ℕ → Run (Bufh × List Block)
unfolding update_len buf_destroy0
buf_destroy rbh i = elim (get_elem? rbh.bufs i) [
  | none ↦ fault
  | some rb ↦ ok (
    record rbh { bufs = remove_at rbh.bufs i; len = (update_len rbh i (neg32 rb.len)).len },
    buf_destroy0 (record rb { len = add32 rb.len (neg32 rb.len) }),
  )
]

-- rd_bufh_destroy: its loop destroys the first buffer as long as there is one, then the length is
-- asserted to be 0. The result is the head with what was freed, in order.
unfoldable pub bufh_destroy_loop : ℕ → Bufh → Run (Bufh × List Block)
unfolding buf_destroy
bufh_destroy_loop zero rbh = ok (rbh, [])
bufh_destroy_loop (suc n) rbh = buf_destroy rbh 0 >>= λ (rbh', freed).
    bufh_destroy_loop n rbh' >>= λ (rbh'', more). ok (rbh'', freed ++ more)

unfoldable pub bufh_destroy : Bufh → Run (Bufh × List Block)
unfolding bufh_destroy_loop
bufh_destroy rbh = bufh_destroy_loop (length rbh.bufs) rbh >>= λ (rbh', freed).
    let given : Bool = not (bit_and rbh.flags free_flag == 0) in
    if rbh'.len == 0 then ok (rbh', if given then freed ++ head ∷ [] else freed) else fault
