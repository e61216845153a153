-- ===== src/Common/Fallible.antt =====
-- Chains of fallible steps in `Option`: `none` is a fault, such as an access out of range or a
-- division by zero, which C leaves undefined.
use Prim.Native.Nat.{ℕ, ◌%◌, ◌<◌}
use mathlib.Core.Path.{◌≡◌, refl}
use native.Mathlib.Omega.{arith}
use mathlib.Core.List.{List}
use mathlib.Core.Option.{Option, none, some}
use operating_systems_fa.Common.Tests.{ltb, ◌==◌, if◌then◌else◌}
use operating_systems_fa.Common.Lists.{length, set}

infixl 5 ◌>>=◌
abbrev pub ◌>>=◌ {ℓ κ} : {A : Type ℓ} {B : Type κ} → Option A → (A → Option B) → Option B
none >>= f = none
some a >>= f = f a

-- `xs[i] = v`, checked.
abbrev pub write_at {ℓ} : {A : Type ℓ} → List A → ℕ → A → Option (List A)
write_at xs i v = if ltb i (length xs) then some (set xs i v) else none

-- `a % b`, checked.
abbrev pub mod_checked : ℕ → ℕ → Option ℕ
mod_checked a b = if b == 0 then none else some (a % b)

-- A chain that has come to its end, taken apart at its first step.
pub >>=-some {ℓ κ} :
    {A : Type ℓ} {B : Type κ} (m : Option A) (f : A → Option B) {b : B}
    → (m >>= f) ≡ some b
    → (a : A) × (m ≡ some a) × (f a ≡ some b)
>>=-some none f e = cc
>>=-some (some a) f e = (a, refl, e)

pub write_at-some {ℓ} :
    {A : Type ℓ} (xs : List A) (i : ℕ) (v : A) {ys : List A}
    → write_at xs i v ≡ some ys
    → (i < length xs) × (ys ≡ set xs i v)
write_at-some xs i v e = ground arith

pub some-inj {ℓ} : {A : Type ℓ} {a b : A} → some a ≡ some b → a ≡ b
some-inj e = cc

-- Two chains with the same first step, and the same continuation at its result.
pub >>=-same {ℓ κ} :
    {A : Type ℓ} {B : Type κ} (m : Option A) (f g : A → Option B)
    → ((a : A) → m ≡ some a → f a ≡ g a)
    → (m >>= f) ≡ (m >>= g)
>>=-same none f g same = refl
>>=-same (some a) f g same = same a refl
