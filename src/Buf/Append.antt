-- ===== src/Buf/Append.antt =====
-- rd_bufh_append, rd_bufh_recv and rd_bufh_vsprintf put their bytes behind those of the chain;
-- rd_bufh_prepend puts none in front.
use mathlib.Core.List.{append_assoc, append-nil}
use librd.Common.{
  ℕ, ◌+◌, ◌-◌, ◌≤◌, ◌<◌, ◌^◌, ◌≡◌, refl, sym, ap, ◌∙◌, arith, inl, inr, Bool, true, false, not,
  ◌&&◌, Option, none, some, List, [], ◌∷◌, ◌++◌, length, take, get_elem?, All, All-append,
  length-append, ltb, leb, Bool-cases, if◌then◌else◌,
}
use librd.Common.Run.{ok}
use librd.Buf.{
  Buf, Bufh, modify, last_place, write_at, add32, remaining, is_owner, update_len, append_data,
  buf_insert, buf_new, tail_takes, pick_buf, get_buf, prepend, recv, vsprintf, write_behind,
}
use librd.Buf.Memory.{take-length, take-write_at, length-write_at}
use librd.Buf.Chain.{
  contents, total, IsBuf, IsBufh, contents-append, total-append, split_last, last_place-append,
  get_elem?-last, modify-last, insert_tail,
}

-- the buffer `rb` with `bytes` behind its data, and `extra` behind them
abbrev filled : Buf → List ℕ → List ℕ → Buf
filled rb bytes extra = record rb {
  orig = write_at rb.orig rb.len (bytes ++ extra);
  len = rb.len + length bytes;
}

-- the bytes that `recv` put in the memory; none on an error
abbrev pub received : Option (List ℕ) → List ℕ
received none = []
received (some bytes) = bytes

-- A chain that ends in a buffer which takes `n` more bytes.
pub record Ends (rbh : Bufh) (front : List Buf) (rb : Buf) (n : ℕ) : Type 0 where
  pub chain : rbh.bufs ≡ front ++ rb ∷ []
  pub takes : rb.len + n ≤ rb.olen
  pub room : rbh.len + n < 2 ^ 32

All-split :
    (front : List Buf) (rb : Buf) → All IsBuf (front ++ rb ∷ []) → All IsBuf front × IsBuf rb
All-split [] rb h = (tt, h.0)
All-split (b ∷ front) rb h = let (hs, h') = All-split front rb h.1 in ((h.0, hs), h')

module _ (rbh : Bufh) (front : List Buf) (rb : Buf) (bytes extra : List ℕ) (is : IsBufh rbh)
    (e : Ends rbh front rb (length (bytes ++ extra))) where
  last_IsBuf : All IsBuf front × IsBuf rb
  last_IsBuf = All-split front rb (rw e.chain at is.each)

  filled-IsBuf : IsBuf (filled rb bytes extra)
  filled-IsBuf = record {
    sized =
        length-write_at rb.orig (bytes ++ extra) rb.len (omega (arith, last_IsBuf.1.sized, e.takes))
        ∙ last_IsBuf.1.sized;
    within = omega (arith, e.takes, length-append bytes extra);
    small = last_IsBuf.1.small;
  }

  -- Writing behind the last buffer's data and counting the bytes.
  pub update_last :
      update_len (write_behind rbh (length front) (bytes ++ extra)) (length front) (length bytes)
      ≡ record rbh { bufs = front ++ filled rb bytes extra ∷ []; len = rbh.len + length bytes }
  unfolding update_len
  update_last =
      parts
        (ap (λ bs. modify (modify bs (length front) wrote) (length front) grow) e.chain
          ∙ (ap (λ bs. modify bs (length front) grow) (modify-last rb front wrote)
              ∙ (modify-last (wrote rb) front grow ∙ ap (λ b. front ++ b ∷ []) grown)))
        (omega (arith, e.room, length-append bytes extra))
    where
      wrote : Buf → Buf
      wrote b = record b { orig = write_at b.orig b.len (bytes ++ extra) }

      grow : Buf → Buf
      grow b = record b { len = add32 b.len (length bytes) }

      counted : add32 rb.len (length bytes) ≡ rb.len + length bytes
      counted = omega (arith, e.takes, last_IsBuf.1.small, length-append bytes extra)

      grown : grow (wrote rb) ≡ filled rb bytes extra
      grown = λ i. record rb { orig = write_at rb.orig rb.len (bytes ++ extra); len = counted i }

      parts :
          {bs cs : List Buf} {m n : ℕ}
          → bs ≡ cs
          → m ≡ n
          → record rbh { bufs = bs; len = m } ≡ record rbh { bufs = cs; len = n }
      parts p q = λ i. record rbh { bufs = p i; len = q i }

  filled-contents : contents (front ++ filled rb bytes extra ∷ []) ≡ contents rbh.bufs ++ bytes
  filled-contents =
      contents-append front (filled rb bytes extra ∷ [])
      ∙ (ap (λ t. contents front ++ t) (append-nil _ ∙ taken)
          ∙ (sym (append_assoc (contents front) (take rb.len rb.orig) bytes)
              ∙ ap (λ t. t ++ bytes) old))
    where
      taken :
          take (rb.len + length bytes) (write_at rb.orig rb.len (bytes ++ extra))
          ≡ take rb.len rb.orig ++ bytes
      taken =
          take-write_at rb.orig bytes extra rb.len
            (omega (arith, last_IsBuf.1.sized, last_IsBuf.1.within))

      old : contents front ++ take rb.len rb.orig ≡ contents rbh.bufs
      old =
          ap (λ t. contents front ++ t) (sym (append-nil _))
          ∙ (sym (contents-append front (rb ∷ [])) ∙ ap contents (sym e.chain))

  filled-IsBufh :
      IsBufh
        (record rbh { bufs = front ++ filled rb bytes extra ∷ []; len = rbh.len + length bytes })
  filled-IsBufh = record {
    each = All-append IsBuf front (filled rb bytes extra ∷ []) last_IsBuf.0 (filled-IsBuf, tt);
    counted = omega (
      arith,
      is.counted,
      ap total e.chain,
      total-append front (rb ∷ []),
      total-append front (filled rb bytes extra ∷ []),
    );
    bounded = omega (arith, e.room, length-append bytes extra);
  }

remaining-eq : (rb : Buf) → IsBuf rb → remaining rb ≡ rb.olen - rb.len
remaining-eq rb is = omega (arith, is.within, is.small)

module _ (rb_size : ℕ) (malloc : ℕ → List ℕ) (struct_small : rb_size < 2 ^ 32)
    (sizes : (n : ℕ) → length (malloc n) ≡ n) where
  -- What the caller of rd_bufh_get_buf has to bring: memory of its own for a buffer that it owns, and
  -- data of the length that it says.
  abbrev pub Supplied : Option (List ℕ) → ℕ → ℕ → Type 0
  Supplied none n flags = is_owner flags ≡ false
  Supplied (some b) n flags = length b ≡ n

  -- An empty buffer that takes `n` bytes.
  abbrev IsFresh : Buf → ℕ → Type 0
  IsFresh rb n = IsBuf rb × (rb.len ≡ 0) × (n ≤ rb.olen)

  allocated :
      (n flags : ℕ) (b : Bool)
      → ltb n rb_size ≡ b
      → n < 2 ^ 32
      → IsFresh
          (record {
            len = 0;
            olen = if b then rb_size else n;
            flags = flags;
            orig = malloc (if b then rb_size else n);
          })
          n
  allocated n flags true e small = (
    record { sized = sizes rb_size; within = omega arith; small = struct_small },
    refl,
    ground arith,
  )
  allocated n flags false e small =
      (record { sized = sizes n; within = omega arith; small = small }, refl, omega arith)

  buf_new-IsFresh :
      (bytes : Option (List ℕ)) (n flags : ℕ)
      → Supplied bytes n flags
      → n < 2 ^ 32
      → IsFresh (buf_new rb_size malloc bytes n flags) n
  unfolding buf_new
  buf_new-IsFresh none n flags own small = rw own (allocated n flags (ltb n rb_size) refl small)
  buf_new-IsFresh (some bytes) n flags given small = elim (Bool-cases (is_owner flags)) [
    | inl own ↦
        rw own (record { sized = given; within = omega arith; small = small }, refl, omega arith)
    | inr copy ↦ rw copy (allocated n flags (ltb n rb_size) refl small)
  ]

  -- The buffer that rd_bufh_get_buf picks is the last one, takes `n` bytes, and the chain holds what
  -- it held.
  abbrev Picks : Bufh → Option (List ℕ) → ℕ → ℕ → Type 0
  Picks rbh bytes n flags =
      (rbh' : Bufh) × (front : List Buf) × (rb : Buf) × (pick_buf rb_size malloc rbh bytes n flags
        ≡ (rbh', length front))
      × IsBufh rbh'
      × Ends rbh' front rb n
      × (contents rbh'.bufs ≡ contents rbh.bufs)
      × (rbh'.len ≡ rbh.len)

  tail_takes-append :
      (front : List Buf) (rb : Buf) (n : ℕ) → tail_takes (front ++ rb ∷ []) n ≡ leb n (remaining rb)
  tail_takes-append front rb n = ground (arith, last_place-append rb front, get_elem?-last rb front)

  link_fresh :
      (rbh : Bufh) (fresh : Buf) (n : ℕ)
      → IsBufh rbh
      → IsFresh fresh n
      → rbh.len + n < 2 ^ 32
      → (rbh' : Bufh) × (buf_insert rbh (last_place rbh.bufs) fresh ≡ rbh')
        × (rbh'.bufs ≡ rbh.bufs ++ fresh ∷ [])
        × IsBufh rbh'
        × Ends rbh' rbh.bufs fresh n
        × (contents rbh'.bufs ≡ contents rbh.bufs)
        × (rbh'.len ≡ rbh.len)
  unfolding buf_insert
  link_fresh rbh fresh n is (fit, empty, takes) small = (
    record rbh { bufs = rbh.bufs ++ fresh ∷ []; len = rbh.len },
    (λ i. record rbh { bufs = insert_tail rbh.bufs fresh i; len = same i }),
    refl,
    record {
      each = All-append IsBuf rbh.bufs (fresh ∷ []) is.each (fit, tt);
      counted = omega (arith, is.counted, total-append rbh.bufs (fresh ∷ []));
      bounded = is.bounded;
    },
    record { chain = refl; takes = omega arith; room = small },
    contents-append rbh.bufs (fresh ∷ [])
        ∙ (ap (λ t. contents rbh.bufs ++ t) none_held ∙ append-nil _),
    refl,
  )
    where
      same : add32 rbh.len fresh.len ≡ rbh.len
      same = omega (arith, is.bounded)

      none_held : take fresh.len fresh.orig ++ [] ≡ []
      none_held = rw empty refl

  and-right : (a b : Bool) → a && b ≡ true → b ≡ true
  and-right true b e = e
  and-right false b e = absurd (cc)

  room_left : (rb : Buf) (n : ℕ) → IsBuf rb → leb n (remaining rb) ≡ true → rb.len + n ≤ rb.olen
  room_left rb n fit enough =
      let at_most : n ≤ remaining rb = ground arith in
      omega (arith, remaining-eq rb fit, fit.within)

  pick_buf-Picks :
      (rbh : Bufh) (bytes : Option (List ℕ)) (n flags : ℕ)
      → IsBufh rbh
      → Supplied bytes n flags
      → rbh.len + n < 2 ^ 32
      → Picks rbh bytes n flags
  unfolding pick_buf
  pick_buf-Picks rbh bytes n flags is given small =
      elim (Bool-cases (not (is_owner flags) && tail_takes rbh.bufs n)) [
        | inl reuse ↦
            let takes : tail_takes rbh.bufs n ≡ true =
              and-right (not (is_owner flags)) (tail_takes rbh.bufs n) reuse in
            elim (split_last rbh.bufs) [
              | inl no_tail ↦
                  let absent : false ≡ true = ap (λ bs. tail_takes bs n) (sym no_tail) ∙ takes in
                  absurd (cc)
              | inr (front, rb, e) ↦
                  let fit : IsBuf rb = (All-split front rb (rw e at is.each)).1 in
                  let enough : leb n (remaining rb) ≡ true =
                    sym (tail_takes-append front rb n)
                    ∙ (ap (λ bs. tail_takes bs n) (sym e) ∙ takes) in
                  let place : length rbh.bufs - 1 ≡ length front =
                    omega (arith, ap length e, length-append front (rb ∷ [])) in
                  (
                    rbh,
                    front,
                    rb,
                    rw (reuse, place) refl,
                    is,
                    record { chain = e; takes = room_left rb n fit enough; room = small },
                    refl,
                    refl,
                  )
            ]
        | inr new ↦
            let (rbh', linked, chain, is', ends, held, len) =
              link_fresh rbh (buf_new rb_size malloc bytes n flags) n is
                (buf_new-IsFresh bytes n flags given (omega arith)) small in
            (
              rbh',
              rbh.bufs,
              buf_new rb_size malloc bytes n flags,
              rw new (ap (λ r. (r, length rbh.bufs)) linked),
              is',
              ends,
              held,
              len,
            )
      ]

  append_data-filled :
      (r : Bufh) (front : List Buf) (rb : Buf) (bytes : List ℕ)
      → IsBufh r
      → Ends r front rb (length bytes)
      → append_data r (length front) bytes (length bytes)
        ≡ ok (record r { bufs = front ++ filled rb bytes [] ∷ []; len = r.len + length bytes })
  unfolding append_data
  append_data-filled r front rb bytes is ends =
      rw (found, append_data) (rw (fits, take-length bytes) (ap ok written))
    where
      found : get_elem? r.bufs (length front) ≡ some rb
      found = ap (λ bs. get_elem? bs (length front)) ends.chain ∙ get_elem?-last rb front

      fit : IsBuf rb
      fit = (All-split front rb (rw ends.chain at is.each)).1

      fits : leb (length bytes) (remaining rb) ≡ true
      fits = ground (arith, remaining-eq rb fit, ends.takes)

      ends' : Ends r front rb (length (bytes ++ []))
      ends' = rw (append-nil bytes) ends

      written :
          update_len (write_behind r (length front) bytes) (length front) (length bytes)
          ≡ record r { bufs = front ++ filled rb bytes [] ∷ []; len = r.len + length bytes }
      written =
          ap (λ t. update_len (write_behind r (length front) t) (length front) (length bytes))
            (sym (append-nil bytes))
          ∙ update_last r front rb bytes [] is ends'

  -- rd_bufh_append of `bytes`, copied or handed over with their memory, returns a well-formed chain
  -- that holds what it held and `bytes` behind it, as long as its length stays below 2 ^ 32. No
  -- assertion fails.
  pub get_buf-append :
      (rbh : Bufh) (bytes : List ℕ) (flags : ℕ)
      → IsBufh rbh
      → rbh.len + length bytes < 2 ^ 32
      → (rbh' : Bufh) × (i : ℕ) × (get_buf rb_size malloc rbh (some bytes) (length bytes) flags
          ≡ ok (rbh', i))
        × IsBufh rbh'
        × (contents rbh'.bufs ≡ contents rbh.bufs ++ bytes)
        × (rbh'.len ≡ rbh.len + length bytes)
  unfolding get_buf
  get_buf-append rbh bytes flags is small =
      let (r, front, rb, picked, is', ends, held, len) =
        pick_buf-Picks rbh (some bytes) (length bytes) flags is refl small in
      let ends' : Ends r front rb (length (bytes ++ [])) = rw (append-nil bytes) ends in
      (
        record r { bufs = front ++ filled rb bytes [] ∷ []; len = r.len + length bytes },
        length front,
        rw (picked, append_data-filled r front rb bytes is' ends) refl,
        filled-IsBufh r front rb bytes [] is' ends',
        filled-contents r front rb bytes [] is' ends' ∙ ap (λ t. t ++ bytes) held,
        ap (λ t. t + length bytes) len,
      )

  -- rd_bufh_vsprintf puts the formatted text behind what the chain holds, and counts it without the
  -- zero that is written behind it.
  pub vsprintf-append :
      (rbh : Bufh) (text : List ℕ)
      → IsBufh rbh
      → rbh.len + length text + 1 < 2 ^ 32
      → (rbh' : Bufh) × (i : ℕ) × (vsprintf rb_size malloc rbh text ≡ ok (rbh', i))
        × IsBufh rbh'
        × (contents rbh'.bufs ≡ contents rbh.bufs ++ text)
        × (rbh'.len ≡ rbh.len + length text)
  unfolding vsprintf get_buf
  vsprintf-append rbh text is small =
      let (r, front, rb, picked, is', ends, held, len) =
        pick_buf-Picks rbh none (length text + 1) 0 is refl (omega arith) in
      let ends' : Ends r front rb (length (text ++ 0 ∷ [])) =
        rw (length-append text (0 ∷ [])) ends in
      (
        record r { bufs = front ++ filled rb text (0 ∷ []) ∷ []; len = r.len + length text },
        length front,
        rw (picked, update_last r front rb text (0 ∷ []) is' ends') refl,
        filled-IsBufh r front rb text (0 ∷ []) is' ends',
        filled-contents r front rb text (0 ∷ []) is' ends' ∙ ap (λ t. t ++ text) held,
        ap (λ t. t + length text) len,
      )

  -- rd_bufh_recv of up to `n` bytes: what `recv` put in the memory stands behind what the chain held,
  -- and is counted; on an error the chain holds what it held.
  pub recv-append :
      (rbh : Bufh) (got : Option (List ℕ)) (n : ℕ)
      → IsBufh rbh
      → rbh.len + n < 2 ^ 32
      → length (received got) ≤ n
      → (rbh' : Bufh) × (result : Option ℕ) × (recv rb_size malloc rbh got n ≡ ok (rbh', result))
        × IsBufh rbh'
        × (contents rbh'.bufs ≡ contents rbh.bufs ++ received got)
        × (rbh'.len ≡ rbh.len + length (received got))
  unfolding recv get_buf
  recv-append rbh none n is small most =
      let (r, front, rb, picked, is', ends, held, len) =
        pick_buf-Picks rbh none n 0 is refl small in
      (r, none, rw picked refl, is', held ∙ sym (append-nil _), len ∙ omega arith)
  recv-append rbh (some bytes) n is small most =
      let (r, front, rb, picked, is', ends, held, len) =
        pick_buf-Picks rbh none n 0 is refl small in
      let ends' : Ends r front rb (length (bytes ++ [])) = rw (append-nil bytes) (record {
        chain = ends.chain;
        takes = omega (arith, ends.takes);
        room = omega (arith, ends.room);
      }) in
      (
        record r { bufs = front ++ filled rb bytes [] ∷ []; len = r.len + length bytes },
        some (length front),
        rw picked (
            ap (λ t. ok (t, some (length front)))
              (ap (λ t. update_len (write_behind r (length front) t) (length front) (length bytes))
                  (sym (append-nil bytes))
                ∙ update_last r front rb bytes [] is' ends')),
        filled-IsBufh r front rb bytes [] is' ends',
        filled-contents r front rb bytes [] is' ends' ∙ ap (λ t. t ++ bytes) held,
        ap (λ t. t + length bytes) len,
      )

  -- rd_bufh_prepend leaves the contents and the length of the chain as they were: the buffer that it
  -- puts in front has its data, if any, but counts none of it.
  pub prepend-contents :
      (rbh : Bufh) (bytes : Option (List ℕ)) (n flags : ℕ)
      → IsBufh rbh
      → Supplied bytes n flags
      → n < 2 ^ 32
      → let rbh' = prepend rb_size malloc rbh bytes n flags in
        IsBufh rbh' × (contents rbh'.bufs ≡ contents rbh.bufs) × (rbh'.len ≡ rbh.len)
  unfolding prepend buf_insert
  prepend-contents rbh bytes n flags is given small =
      let (fit, empty, takes) = buf_new-IsFresh bytes n flags given small in
      (
        record {
          each = (fit, is.each);
          counted = omega (arith, is.counted, is.bounded);
          bounded = omega arith;
        },
        rw empty refl,
        omega (arith, is.bounded),
      )
