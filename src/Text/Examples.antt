-- ===== src/Text/Examples.antt =====
-- Strings that the theorems apply to.
use librd.Common.{
  ◌-◌, ◌≢◌, Option, length, take, get_elem?, inl, ℕ, ◌≡◌, refl, arith, true, false, none, some,
  List, [], ◌∷◌, ◌++◌,
}
use librd.Common.Run.{ok, fault}
use librd.Text.{strnspn, strncspn, strnchrs}
use librd.Text.Format.{Cyclic, tsprintf, snprintf_cat}
use librd.Text.Keep.{calls, tsprintf-kept, snprintf_cat-append}
use librd.Text.Diff.{strndiffpos, strdiffpos, IsDifference, signed, strndiffpos-strdiffpos}
use librd.Text.Span.{IsChar, strnspn-prefix_len}

-- "aab"
abbrev text : List ℕ
text = 97 ∷ 97 ∷ 98 ∷ []

abbrev accept : List ℕ
accept = 97 ∷ []

abbrev ended : List ℕ → List ℕ
ended s = s ++ 0 ∷ []

low_a : IsChar 97
low_a = (omega arith, λ e. omega (arith, e))

low_b : IsChar 98
low_b = (omega arith, λ e. omega (arith, e))

strnspn-prefix_len_example :
    (strnspn true (ended text) none (ended accept) ≡ ok 2)
    × (strncspn true (ended text) none (ended accept) ≡ ok 0)
strnspn-prefix_len_example =
    strnspn-prefix_len true text accept [] [] none (low_a, (low_a, (low_b, tt))) (low_a, tt)

found_b : strnchrs true (ended text) none (98 ∷ 0 ∷ []) false ≡ ok (some 2)
unfolding strnchrs
found_b = refl

-- Without a match the end of the string is returned, if that is asked for.
found_end : strnchrs true (ended text) none (99 ∷ 0 ∷ []) true ≡ ok (some 3)
unfolding strnchrs
found_end = refl

-- With a signed `char` a byte above 127 is a negative index of the map.
negative_index : strnspn true (200 ∷ 0 ∷ []) none (ended accept) ≡ fault
unfolding strnspn
negative_index = refl

-- a thread that has not called rd_tsprintf
abbrev untouched : Cyclic
untouched = record { size = 0; buf = []; len = []; i = 0 }

abbrev others : List (Option (List ℕ))
others = some accept ∷ none ∷ some [] ∷ []

tsprintf-kept_example :
    (cyc' : Cyclic) × (i : ℕ) × (cyc'' : Cyclic) × (tsprintf untouched (some text)
      ≡ ok (cyc', some i))
    × (get_elem? cyc'.buf i ≡ some (some text))
    × (calls cyc' others ≡ ok cyc'')
    × (get_elem? cyc''.buf i ≡ some (some text))
tsprintf-kept_example = tsprintf-kept untouched text others (inl (refl, omega arith)) (omega arith)

-- "aab" in a buffer of 5 bytes takes one character more
snprintf_cat-append_example :
    snprintf_cat text 5 (97 ∷ 98 ∷ [])
    ≡ (take (5 - 1) (text ++ 97 ∷ 98 ∷ []), some (length (text ++ 97 ∷ 98 ∷ [])))
snprintf_cat-append_example = snprintf_cat-append text (97 ∷ 98 ∷ []) 5 (omega arith)

nonzero : (c : ℕ) → IsChar c → c ≢ 0
nonzero c h = h.1

strndiffpos-strdiffpos_example :
    (r : Option ℕ) × IsDifference text accept r
    × (strndiffpos (text ++ []) (length text) (accept ++ []) (length accept) ≡ ok (signed r))
    × (strdiffpos (text ++ 0 ∷ []) (accept ++ 0 ∷ []) 0 ≡ ok (signed r))
strndiffpos-strdiffpos_example =
    strndiffpos-strdiffpos text accept [] []
      (nonzero 97 low_a, (nonzero 97 low_a, (nonzero 98 low_b, tt))) (nonzero 97 low_a, tt)
