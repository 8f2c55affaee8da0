-- ===== src/Text/Span.antt =====
-- rd_strnspn and rd_strncspn measure a prefix of a string.
use librd.Common.{
  All-imp, ℕ, zero, suc, ◌+◌, ◌-◌, ◌<◌, ◌≡◌, ◌≢◌, refl, ap, ◌∙◌, arith, Bool, true, false, not,
  Option, none, some, List, [], ◌∷◌, ◌++◌, All, length, get_or, set, take, replicate, leb, ◌==◌,
  if◌then◌else◌, get_or-set_self, get_or-set_ne, length-set, get_or-replicate, length-replicate,
  Bool-cases, ==_iff, inl, inr,
}
use librd.Common.Run.{ok}
use librd.Text.{char_index, fill_map, strnspn_map, strnspn, strncspn}

-- a character that no compiler takes for a negative number, and that does not end a string
abbrev pub IsChar : ℕ → Type 0
IsChar c = (c < 128) × (c ≢ 0)

abbrev pub member : ℕ → List ℕ → Bool
member c [] = false
member c (x ∷ xs) = if c == x then true else member c xs

-- how many bytes pass the test before the first that does not
abbrev pub prefix_len : (ℕ → Bool) → List ℕ → ℕ
prefix_len p [] = 0
prefix_len p (c ∷ s) = let n = prefix_len p s in if p c then suc n else 0

-- the bytes that a size lets the search see
abbrev pub limited : Option ℕ → List ℕ → List ℕ
limited none s = s
limited (some n) s = take n s

abbrev filled : List ℕ → List ℕ → List ℕ
filled [] map = map
filled (a ∷ s) map = filled s (set map a 1)

counted :
    (b : Bool) (cnt n : ℕ)
    → (if b then ok (cnt + 1 + n) else ok cnt) ≡ ok (cnt + (if b then suc n else 0))
counted true cnt n = ap ok (omega arith)
counted false cnt n = ap ok (omega arith)

either_one : (b : Bool) → ◌≡◌ {A = ℕ} (if b then 1 else 1) 1
either_one true = refl
either_one false = refl

module _ (char_signed : Bool) where
  char_index-ok : (c : ℕ) → c < 128 → char_index char_signed c ≡ ok c
  char_index-ok c h = let low : leb 128 c ≡ false = ground arith in at_flag char_signed low
    where
      at_flag : (b : Bool) → leb 128 c ≡ false → char_index b c ≡ ok c
      at_flag true e = rw e refl
      at_flag false e = refl

  fill_map-filled :
      (s r map : List ℕ) → All IsChar s → fill_map char_signed (s ++ 0 ∷ r) map ≡ ok (filled s map)
  unfolding fill_map
  fill_map-filled [] r map h = refl
  fill_map-filled (c ∷ s) r map h =
      let (low, filled_char) = h.0 in
      let test : (c == 0) ≡ false = ground (arith, filled_char) in
      rw (test, char_index-ok c low) (fill_map-filled s r (set map c 1) h.1)

  strnspn_map-prefix :
      (s r : List ℕ) (size : Option ℕ) (accept : ℕ) (map : List ℕ) (cnt : ℕ) (p : ℕ → Bool)
      → All IsChar s
      → All (λ c. (get_or map c 0 == accept) ≡ p c) s
      → strnspn_map char_signed (s ++ 0 ∷ r) size accept map cnt
        ≡ ok (cnt + prefix_len p (limited size s))
  unfolding strnspn_map
  strnspn_map-prefix [] r none accept map cnt p h k = ap ok (omega arith)
  strnspn_map-prefix [] r (some zero) accept map cnt p h k = ap ok (omega arith)
  strnspn_map-prefix [] r (some (suc n)) accept map cnt p h k = ap ok (omega arith)
  strnspn_map-prefix (c ∷ s) r (some zero) accept map cnt p h k = ap ok (omega arith)
  strnspn_map-prefix (c ∷ s) r none accept map cnt p h k =
      let (low, filled_char) = h.0 in
      let test : (c == 0) ≡ false = ground (arith, filled_char) in
      let next = strnspn_map-prefix s r none accept map (cnt + 1) p h.1 k.1 in
      rw (test, char_index-ok c low, k.0, next) (counted (p c) cnt (prefix_len p s))
  strnspn_map-prefix (c ∷ s) r (some (suc n)) accept map cnt p h k =
      let (low, filled_char) = h.0 in
      let test : (c == 0) ≡ false = ground (arith, filled_char) in
      let less : suc n - 1 ≡ n = omega arith in
      let next = strnspn_map-prefix s r (some n) accept map (cnt + 1) p h.1 k.1 in
      rw (test, char_index-ok c low, k.0, less, next) (counted (p c) cnt (prefix_len p (take n s)))

get_or-filled :
    (s map : List ℕ) (c : ℕ)
    → c < length map
    → get_or (filled s map) c 0 ≡ (if member c s then 1 else get_or map c 0)
get_or-filled [] map c h = refl
get_or-filled (a ∷ s) map c h =
    let len = length-set map a 1 in
    get_or-filled s (set map a 1) c (omega (arith, h, len)) ∙ elim (Bool-cases (c == a)) [
      | inl e ↦
          let same = (==_iff c a).0 e in
          let here =
            ap (λ x. get_or (set map a 1) x 0) same
            ∙ get_or-set_self map a 1 0 (omega (arith, h, same)) in
          rw (e, here) (either_one (member c s))
      | inr e ↦
          let apart : a ≢ c = λ q. ground (arith, e, q) in
          rw (e, get_or-set_ne map a c 1 0 apart) refl
    ]

-- what the map says of a character, as rd_strnspn and rd_strncspn compare it
map_char :
    (s : List ℕ) (c : ℕ)
    → IsChar c
    → ((get_or (filled s (replicate 256 0)) c 0 == 1) ≡ member c s)
      × ((get_or (filled s (replicate 256 0)) c 0 == 0) ≡ not (member c s))
map_char s c h =
    let low = h.0 in
    let len = length-replicate {A = ℕ} 256 0 in
    let zeros : List ℕ = replicate 256 0 in
    let clear : get_or zeros c 0 ≡ 0 = get_or-replicate {A = ℕ} 256 c 0 in
    let char =
      get_or-filled s zeros c (omega (arith, low, len))
      ∙ ap (λ n. if member c s then 1 else n) clear in
    (ap (λ n. n == 1) char ∙ is_one (member c s), ap (λ n. n == 0) char ∙ is_zero (member c s))
  where
    is_one : (b : Bool) → ((if b then 1 else 0) == 1) ≡ b
    is_one true = refl
    is_one false = refl

    is_zero : (b : Bool) → ((if b then 1 else 0) == 0) ≡ not b
    is_zero true = refl
    is_zero false = refl

-- the map that `fill_map` leaves tells the members from the others
abbrev IsMap : List ℕ → ℕ → Type 0
IsMap s c =
    ((get_or (filled s (replicate 256 0)) c 0 == 1) ≡ member c s)
    × ((get_or (filled s (replicate 256 0)) c 0 == 0) ≡ not (member c s))

-- On zero-ended strings of characters below 128, rd_strnspn returns the number of bytes before the
-- first that is not in `accept`, and rd_strncspn the number before the first that is in it, within the
-- size if one is given; neither reads beyond the end of a string.
pub strnspn-prefix_len :
    (char_signed : Bool) (s accept r r' : List ℕ) (size : Option ℕ)
    → All IsChar s
    → All IsChar accept
    → (strnspn char_signed (s ++ 0 ∷ r) size (accept ++ 0 ∷ r')
        ≡ ok (prefix_len (λ c. member c accept) (limited size s)))
      × (strncspn char_signed (s ++ 0 ∷ r) size (accept ++ 0 ∷ r')
          ≡ ok (prefix_len (λ c. not (member c accept)) (limited size s)))
unfolding strnspn strncspn
strnspn-prefix_len char_signed s accept r r' size h k =
    let map : List ℕ = filled accept (replicate 256 0) in
    let fill = fill_map-filled char_signed accept r' (replicate 256 0) k in
    let chars = All-imp IsChar (IsMap accept) s (map_char accept) h in
    let inside =
      strnspn_map-prefix char_signed s r size 1 map 0 (λ c. member c accept) h
        (All-imp (IsMap accept) (λ c. (get_or map c 0 == 1) ≡ member c accept) s (λ c z. z.0)
          chars) in
    let outside =
      strnspn_map-prefix char_signed s r size 0 map 0 (λ c. not (member c accept)) h
        (All-imp (IsMap accept) (λ c. (get_or map c 0 == 0) ≡ not (member c accept)) s (λ c z. z.1)
          chars) in
    (rw (fill) (inside ∙ ap ok (omega arith)), rw (fill) (outside ∙ ap ok (omega arith)))
