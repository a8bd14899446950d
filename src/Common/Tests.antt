-- ===== src/Common/Tests.antt =====
-- Boolean tests on the native numbers, the conditional, and results that may be an error.
use Prim.Native.Nat.{ℕ, compare, Ordering}
use mathlib.Core.Path.{◌≡◌, refl}
use mathlib.Core.Logic.{◌↔◌, ◌⊎◌, inl, inr}
use mathlib.Core.Bool.{Bool, true, false}
use mathlib.Core.Option.{Option, none, some}
use native.Mathlib.Omega.{arith}

abbrev pub ltb : ℕ → ℕ → Bool
ltb a b = elim (compare a b) [ Ordering.lt ↦ true | _ ↦ false ]

abbrev pub leb : ℕ → ℕ → Bool
leb a b = elim (compare a b) [ Ordering.gt ↦ false | _ ↦ true ]

infix 50 ◌==◌
abbrev pub ◌==◌ : ℕ → ℕ → Bool
a == b = elim (compare a b) [ Ordering.eq ↦ true | _ ↦ false ]

infix 1 if◌then◌else◌
abbrev pub if◌then◌else◌ {ℓ} : {A : Type ℓ} → Bool → A → A → A
if true then x else y = x
if false then x else y = y

pub ==_iff : (a b : ℕ) → ((a == b) ≡ true) ↔ (a ≡ b)
==_iff a b = ground arith

-- To split on a computed value and keep the equation.
pub Bool-cases : (b : Bool) → (b ≡ true) ⊎ (b ≡ false)
Bool-cases true = inl refl
Bool-cases false = inr refl

pub Option-cases {ℓ} : {A : Type ℓ} (o : Option A) → (o ≡ none) ⊎ ((a : A) × (o ≡ some a))
Option-cases none = inl refl
Option-cases (some a) = inr (a, refl)

-- A Go pair `(A, error)` of which exactly one part counts.
pub data Result {ℓ κ} (E : Type ℓ) (A : Type κ) : Type (ℓ ⊔ κ) where
  ok : A → Result E A
  err : E → Result E A

infixl 5 ◌>>=◌
abbrev pub ◌>>=◌ {ℓ κ ι} :
    {E : Type ℓ} {A : Type κ} {B : Type ι} → Result E A → (A → Result E B) → Result E B
◌>>=◌ (err e) next = err e
◌>>=◌ (ok a) next = next a

-- Inversion of a chain that gives a result.
pub >>=-eq-ok {ℓ κ ι} :
    {E : Type ℓ} {A : Type κ} {B : Type ι} (first : Result E A) (next : A → Result E B) {y : B}
    → (first >>= next) ≡ ok y
    → (x : A) × (first ≡ ok x) × (next x ≡ ok y)
>>=-eq-ok (err e) next gives = cc
>>=-eq-ok (ok x) next gives = (x, refl, gives)

-- Inversion of a guard that lets a result through.
pub guarded-eq-ok {ℓ κ} :
    {E : Type ℓ} {A : Type κ} (t : Bool) (m : Result E A) (e : E) {a : A}
    → (if t then m else err e) ≡ ok a
    → (t ≡ true) × (m ≡ ok a)
guarded-eq-ok true m e h = (refl, h)
guarded-eq-ok false m e h = cc

pub Result-cases {ℓ κ} :
    {E : Type ℓ} {A : Type κ} (r : Result E A) → ((e : E) × (r ≡ err e)) ⊎ ((a : A) × (r ≡ ok a))
Result-cases (err e) = inl (e, refl)
Result-cases (ok a) = inr (a, refl)
