-- ===== src/Avg/Sum.antt =====
-- The values that were put in one period, and what rd_avg returns for them.
use librd.Common.{
  ℕ, ◌+◌, ◌%◌, ◌^◌, ◌<◌, ◌≤◌, ◌≡◌, refl, arith, List, [], ◌∷◌, All, ltb, if◌then◌else◌, max, min,
}
use librd.Avg.{Period, no_value}
use librd.Avg.Put.{added}

-- a value and the time at which it was put
abbrev pub Sample : Type 0
Sample = ℕ × ℕ

abbrev pub total : List Sample → ℕ
total [] = 0
total (x ∷ xs) = x.0 + total xs

abbrev pub largest : List Sample → ℕ
largest [] = 0
largest (x ∷ xs) = max x.0 (largest xs)

abbrev pub smallest : List Sample → ℕ
smallest [] = no_value
smallest (x ∷ xs) = min x.0 (smallest xs)

abbrev pub last_time : ℕ → List Sample → ℕ
last_time t [] = t
last_time t (x ∷ xs) = last_time x.1 xs

abbrev pub added_all : {D : Type 0} → Period D → List Sample → Period D
added_all p [] = p
added_all p (x ∷ xs) = added_all (added p x.0 x.1) xs

pub added_all-cnt :
    {D : Type 0} (p : Period D) (xs : List Sample)
    → p.cnt < 2 ^ 64
    → (added_all p xs).cnt ≡ (p.cnt + total xs) % 2 ^ 64
added_all-cnt p [] h = omega (arith, h)
added_all-cnt p (x ∷ xs) h =
    let rest = added_all-cnt (added p x.0 x.1) xs (omega arith) in omega (arith, rest)

higher : (h v : ℕ) → (if ltb h v then v else h) ≡ max h v
higher h v = ground arith

lower : (l v : ℕ) → (if ltb v l then v else l) ≡ min l v
lower l v = ground arith

pub added_all-high :
    {D : Type 0} (p : Period D) (xs : List Sample)
    → (added_all p xs).res.high ≡ max p.res.high (largest xs)
added_all-high p [] = omega arith
added_all-high p (x ∷ xs) =
    let rest = added_all-high (added p x.0 x.1) xs in
    let here = higher p.res.high x.0 in omega (arith, rest, here)

pub added_all-low :
    {D : Type 0} (p : Period D) (xs : List Sample)
    → p.res.low ≤ no_value
    → (added_all p xs).res.low ≡ min p.res.low (smallest xs)
added_all-low p [] h = omega (arith, h)
added_all-low p (x ∷ xs) h =
    let here = lower p.res.low x.0 in
    let rest = added_all-low (added p x.0 x.1) xs (omega (arith, here, h)) in
    omega (arith, rest, here)

pub added_all-last :
    {D : Type 0} (p : Period D) (xs : List Sample) → (added_all p xs).last ≡ last_time p.last xs
added_all-last p [] = refl
added_all-last p (x ∷ xs) = added_all-last (added p x.0 x.1) xs

pub last_time-between :
    (lo hi t : ℕ) (xs : List Sample)
    → lo < t
    → t < hi
    → All (λ x. (lo < x.1) × (x.1 < hi)) xs
    → (lo < last_time t xs) × (last_time t xs < hi)
last_time-between lo hi t [] h k a = (h, k)
last_time-between lo hi t (x ∷ xs) h k a = last_time-between lo hi x.1 xs a.0.0 a.0.1 a.1

pub smallest-le : (xs : List Sample) → smallest xs ≤ no_value
smallest-le [] = omega arith
smallest-le (x ∷ xs) = omega (arith, smallest-le xs)
