-- ===== src/Buf/Move.antt =====
-- rd_bufh_move: the buffers of one chain go behind those of another.
use mathlib.Core.List.{append_assoc, append-nil}
use librd.Common.{
  ℕ, ◌+◌, ◌<◌, ◌^◌, ◌≡◌, refl, sym, ap, ◌∙◌, arith, none, some, List, [], ◌∷◌, ◌++◌, length,
  All-append,
}
use librd.Buf.{Buf, Bufh, last_place, add32, buf_insert, move_loop, move}
use librd.Buf.Chain.{
  contents, total, IsBuf, IsBufh, contents-append, total-append, insert_tail, last_place-append,
}

place-append : (xs : List Buf) (rb : Buf) → last_place (xs ++ rb ∷ []) ≡ some (length xs)
place-append xs rb = last_place-append rb xs

-- the place of the next tail
next_place :
    (xs : List Buf) → (elim (last_place xs) as (λ o. ℕ) [ none ↦ 0 | some i ↦ i + 1 ]) ≡ length xs
next_place [] = refl
next_place (x ∷ xs) = omega arith

pub move_loop-append :
    (dst : Bufh) (next : List Buf)
    → dst.len + total next < 2 ^ 32
    → move_loop dst (last_place dst.bufs) next
      ≡ record dst { bufs = dst.bufs ++ next; len = dst.len + total next }
unfolding move_loop buf_insert
move_loop-append dst [] small = λ i. record dst { bufs = sym (append-nil dst.bufs) i; len = same i }
  where
    same : dst.len ≡ dst.len + 0
    same = omega arith
move_loop-append dst (rb ∷ next) small =
    ap
      (λ r.
        move_loop r (some (elim (last_place dst.bufs) as (λ o. ℕ) [ none ↦ 0 | some i ↦ i + 1 ]))
          next)
      linked
    ∙ (ap (λ p. move_loop dst' p next) place
        ∙ (move_loop-append dst' next (omega arith)
            ∙ (λ i. record dst { bufs = append_assoc dst.bufs (rb ∷ []) next i; len = whole i })))
  where
    dst' : Bufh
    dst' = record dst { bufs = dst.bufs ++ rb ∷ []; len = dst.len + rb.len }

    count : add32 dst.len rb.len ≡ dst.len + rb.len
    count = omega arith

    linked : buf_insert dst (last_place dst.bufs) rb ≡ dst'
    linked = λ i. record dst { bufs = insert_tail dst.bufs rb i; len = count i }

    place :
        some (elim (last_place dst.bufs) as (λ o. ℕ) [ none ↦ 0 | some i ↦ i + 1 ])
        ≡ last_place (dst.bufs ++ rb ∷ [])
    place = ap some (next_place dst.bufs) ∙ sym (place-append dst.bufs rb)

    whole : dst.len + rb.len + total next ≡ dst.len + (rb.len + total next)
    whole = omega arith

-- rd_bufh_move of a well-formed chain onto another, their lengths being below 2 ^ 32 together, leaves
-- both well formed: `dst` holds what it held and then what `src` held, and `src` is empty.
pub move-contents :
    (dst src : Bufh)
    → IsBufh dst
    → IsBufh src
    → dst.len + src.len < 2 ^ 32
    → let (dst', src') = move dst src in
      IsBufh dst'
      × IsBufh src'
      × (contents dst'.bufs ≡ contents dst.bufs ++ contents src.bufs)
      × (dst'.len ≡ dst.len + src.len)
      × (src'.bufs ≡ [])
unfolding move
move-contents dst src is is' small =
    let fits : dst.len + total src.bufs < 2 ^ 32 = omega (arith, is'.counted) in
    let merged = move_loop-append dst src.bufs fits in
    rw merged (
      record {
        each = All-append IsBuf dst.bufs src.bufs is.each is'.each;
        counted = omega (arith, is.counted, total-append dst.bufs src.bufs);
        bounded = fits;
      },
      record { each = tt; counted = refl; bounded = omega arith },
      contents-append dst.bufs src.bufs,
      omega (arith, is'.counted),
      refl,
    )
