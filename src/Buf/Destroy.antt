-- ===== src/Buf/Destroy.antt =====
-- rd_bufh_destroy: its assertion on the length, and what it frees.
use librd.Common.{
  ◌<◌, ◌^◌, ◌≡◌, refl, ap, sym, ◌∙◌, arith, not, Bool, true, false, List, [], ◌∷◌, ◌++◌, length,
  All, ◌==◌, bit_and, if◌then◌else◌,
}
use mathlib.Core.List.{append-nil}
use librd.Common.Run.{Run, ok}
use librd.Buf.{
  Buf, Bufh, Block, memory, structure, head, is_owner, add32, neg32, buf_destroy0, buf_destroy,
  bufh_destroy_loop, bufh_destroy,
}
use librd.Buf.Chain.{total, IsBuf, IsBufh}

-- What there is to free for each buffer: the memory that it owns, and itself, with no bytes left.
abbrev pub blocks : List Buf → List Block
blocks [] = []
blocks (rb ∷ bufs) =
    (if is_owner rb.flags then memory rb.orig ∷ [] else [])
    ++ structure (record rb { len = 0 }) ∷ blocks bufs

buf_destroy0-blocks :
    (rb : Buf) (bufs : List Buf)
    → buf_destroy0 (record rb { len = 0 }) ++ blocks bufs ≡ blocks (rb ∷ bufs)
unfolding buf_destroy0
buf_destroy0-blocks rb bufs = by_owner (is_owner rb.flags)
  where
    by_owner :
        (b : Bool)
        → (if b
              then memory rb.orig ∷ structure (record rb { len = 0 }) ∷ []
              else structure (record rb { len = 0 }) ∷ [])
            ++ blocks bufs
          ≡ (if b then memory rb.orig ∷ [] else [])
            ++ structure (record rb { len = 0 }) ∷ blocks bufs
    by_owner true = refl
    by_owner false = refl

destroy_first :
    (rbh : Bufh) (rb : Buf) (bufs : List Buf)
    → buf_destroy (record rbh { bufs = rb ∷ bufs }) 0
      ≡ ok (
        record rbh { bufs = bufs; len = add32 rbh.len (neg32 rb.len) },
        buf_destroy0 (record rb { len = add32 rb.len (neg32 rb.len) }),
      )
unfolding buf_destroy
destroy_first rbh rb bufs = refl

loop_empties :
    (bufs : List Buf) (rbh : Bufh)
    → rbh.bufs ≡ bufs
    → All IsBuf bufs
    → rbh.len ≡ total bufs
    → total bufs < 2 ^ 32
    → bufh_destroy_loop (length bufs) rbh ≡ ok (record rbh { bufs = []; len = 0 }, blocks bufs)
unfolding bufh_destroy_loop
loop_empties [] rbh e h counted small = λ i. ok (record rbh { bufs = e i; len = counted i }, [])
loop_empties (rb ∷ bufs) rbh e (fit, h) counted small = rw first (
    rw (loop_empties bufs (record rbh { bufs = bufs; len = total bufs }) refl h refl (omega arith))
      (λ i. ok (record rbh { bufs = []; len = 0 }, buf_destroy0-blocks rb bufs i)))
  where
    left : add32 rbh.len (neg32 rb.len) ≡ total bufs
    left = omega arith

    nothing : add32 rb.len (neg32 rb.len) ≡ 0
    nothing = omega arith

    first :
        buf_destroy rbh 0
        ≡ ok (record rbh { bufs = bufs; len = total bufs }, buf_destroy0 (record rb { len = 0 }))
    first =
        ap (λ bs. buf_destroy (record rbh { bufs = bs }) 0) e
        ∙ (destroy_first rbh rb bufs ∙ λ i. ok (
          record rbh { bufs = bufs; len = left i },
          buf_destroy0 (record rb { len = nothing i }),
        ))

-- rd_bufh_destroy of a well-formed chain unlinks every buffer, finds the length 0 that it asserts, and
-- frees, in the order of the chain, for each buffer the memory that it owns, if it does, and the
-- buffer, and last the head if its flag says that it was allocated, and nothing else.
pub bufh_destroy-IsBufh :
    (rbh : Bufh)
    → IsBufh rbh
    → bufh_destroy rbh
      ≡ ok (
        record rbh { bufs = []; len = 0 },
        blocks rbh.bufs ++ (if not (bit_and rbh.flags 1 == 0) then head ∷ [] else []),
      )
unfolding bufh_destroy
bufh_destroy-IsBufh rbh is =
    rw (loop_empties rbh.bufs rbh refl is.each is.counted (omega (arith, is.counted, is.bounded)))
      (by_flag (not (bit_and rbh.flags 1 == 0)))
  where
    by_flag :
        (b : Bool)
        → ◌≡◌ {A = Run (Bufh × List Block)}
            (ok (
              record rbh { bufs = []; len = 0 },
              if b then blocks rbh.bufs ++ head ∷ [] else blocks rbh.bufs,
            ))
            (ok
              (record rbh { bufs = []; len = 0 }, blocks rbh.bufs ++ (if b then head ∷ [] else [])))
    by_flag true = refl
    by_flag false =
        λ i. ok (record rbh { bufs = []; len = 0 }, sym (append-nil (blocks rbh.bufs)) i)
