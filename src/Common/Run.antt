-- ===== src/Common/Run.antt =====
-- Runs of code that follows pointers: a result, a fault, or a recursion that its fuel does not cover.
use Prim.Native.Nat.{ℕ}
use mathlib.Core.Path.{◌≡◌, refl, ap, subst}
use mathlib.Core.Bool.{Bool, true, false}
use native.Mathlib.Omega.{arith}
use librd.Common.Tests.{if◌then◌else◌}

pub data Run {ℓ} (A : Type ℓ) : Type ℓ where
  ok : A → Run A
  -- a NULL pointer is followed, or an assertion fails
  fault : Run A
  out_of_fuel : Run A

infixl 5 ◌>>=◌
abbrev pub ◌>>=◌ {ℓ κ} : {A : Type ℓ} {B : Type κ} → Run A → (A → Run B) → Run B
ok a >>= k = k a
fault >>= k = fault
out_of_fuel >>= k = out_of_fuel

abbrev pub map_run {ℓ κ} : {A : Type ℓ} {B : Type κ} → (A → B) → Run A → Run B
map_run f (ok a) = ok (f a)
map_run f fault = fault
map_run f out_of_fuel = out_of_fuel

pub >>=-eq-ok {ℓ κ} :
    {A : Type ℓ} {B : Type κ} (m : Run A) (k : A → Run B) {b : B}
    → (m >>= k) ≡ ok b
    → (a : A) × (m ≡ ok a) × (k a ≡ ok b)
>>=-eq-ok (ok a) k h = (a, refl, h)
>>=-eq-ok fault k h = cc
>>=-eq-ok out_of_fuel k h = cc

-- A run that does not want fuel, and whose result, if it has one, has the property.
abbrev pub Ensures {ℓ} : {A : Type ℓ} → (A → Type 0) → Run A → Type 0
Ensures P (ok a) = P a
Ensures P fault = Unit
Ensures P out_of_fuel = ⊥

pub Ensures->>= {ℓ κ} :
    {A : Type ℓ} {B : Type κ} (P : A → Type 0) (Q : B → Type 0) (m : Run A) (k : A → Run B)
    → Ensures P m
    → ((a : A) → m ≡ ok a → P a → Ensures Q (k a))
    → Ensures Q (m >>= k)
Ensures->>= P Q (ok a) k h f = f a refl h
Ensures->>= P Q fault k h f = tt
Ensures->>= P Q out_of_fuel k h f = h

pub Ensures-if {ℓ} :
    {A : Type ℓ} (P : A → Type 0) (b : Bool) (m n : Run A)
    → (b ≡ true → Ensures P m)
    → (b ≡ false → Ensures P n)
    → Ensures P (if b then m else n)
Ensures-if P true m n h k = h refl
Ensures-if P false m n h k = k refl

abbrev pub result {ℓ} : {A : Type ℓ} → Run A → A → A
result (ok a) d = a
result _ d = d

abbrev is_ok {ℓ} : {A : Type ℓ} → Run A → ℕ
is_ok (ok a) = 1
is_ok _ = 0

fault-ne-ok {ℓ} : {A : Type ℓ} {a : A} → fault ≡ ok a → ⊥
fault-ne-ok e = let one : ◌≡◌ {A = ℕ} 0 1 = ap is_ok e in omega (arith, one)

pub Ensures-ok {ℓ} :
    {A : Type ℓ} (P : A → Type 0) (m : Run A) (a : A) → Ensures P m → m ≡ ok a → P a
Ensures-ok P (ok b) a h e = subst P (ap (λ m. result m b) e) h
Ensures-ok P fault a h e = absurd (fault-ne-ok e)
Ensures-ok P out_of_fuel a h e = elim h [ ]
