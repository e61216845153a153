-- ===== src/Common/Strcat.antt =====
-- `strcat` of <string.h>, on a buffer of known size.
use operating_systems_fa.Common.Tests.{Bool-cases, if◌then◌else◌, ltb, lt→ltb, ◌==◌}
use operating_systems_fa.Common.Lists.{length}
use operating_systems_fa.Common.Text.{
  c_string, put_over, no_nul, c_string-put_over, length-put_over,
}
use Prim.Native.Nat.{ℕ, suc, ◌<◌}
use mathlib.Core.Path.{◌≡◌, refl, sym, ap, subst}
use operating_systems_fa.Common.Fallible.{some-inj}
use mathlib.Core.Logic.{inl, inr}
use mathlib.Core.Bool.{true}
use mathlib.Core.List.{List, [], ◌∷◌, ◌++◌}
use mathlib.Core.Option
use mathlib.Core.Option.{Option, none, some}
use native.Mathlib.Omega.{arith}

-- The text and its NUL go where the first NUL of the buffer is. Without a NUL there, or without
-- room, the call is undefined.
unfoldable pub strcat : (text buff : List ℕ) → Option (List ℕ)
unfolding put_over
strcat text [] = none
strcat text (c ∷ cs) =
    let rest = strcat text cs in
    if c == 0
    then (if ltb (length text) (length (c ∷ cs))
        then some (put_over (text ++ 0 ∷ []) (c ∷ cs))
        else none)
    else Option.map (λ b. c ∷ b) rest

map-some {ℓ κ} :
    {A : Type ℓ} {B : Type κ} (f : A → B) (o : Option A) {b : B}
    → Option.map f o ≡ some b
    → (a : A) × (o ≡ some a) × (f a ≡ b)
map-some f none e = absurd (cc)
map-some f (some a) e = (a, refl, some-inj e)

-- The string `s` of the buffer is longer by the text, the buffer as large as before.
abbrev Appended : (text buff s : List ℕ) → Type 0
Appended text buff s =
    (after : List ℕ) × (strcat text buff ≡ some after)
    × (c_string after ≡ some (s ++ text))
    × (length after ≡ length buff)

pub strcat-c_string :
    (text buff : List ℕ) {s : List ℕ}
    → no_nul text ≡ true
    → c_string buff ≡ some s
    → length (s ++ text) < length buff
    → (after : List ℕ) × (strcat text buff ≡ some after)
      × (c_string after ≡ some (s ++ text))
      × (length after ≡ length buff)
unfolding strcat c_string
strcat-c_string text [] clean e room = absurd (omega arith)
strcat-c_string text (c ∷ cs) {s} clean e room = elim (Bool-cases (c == 0)) [
  | inl z ↦
      let nil : [] ≡ s = some-inj (rw (c_string, z) at e) in
      let fits : length text < length (c ∷ cs) =
        subst (λ r. length (r ++ text) < length (c ∷ cs)) (sym nil) room in
      subst (Appended text (c ∷ cs)) nil (
        put_over (text ++ 0 ∷ []) (c ∷ cs),
        rw (z, lt→ltb (length text) (length (c ∷ cs)) fits) refl,
        c_string-put_over text (c ∷ cs) clean fits,
        length-put_over (text ++ 0 ∷ []) (c ∷ cs),
      )
  | inr nz ↦
      let (r, at, cons) = map-some (λ t. c ∷ t) (c_string cs) (rw (c_string, nz) at e) in
      let (after, done, reads, long) =
        strcat-c_string text cs clean at (omega (arith, room, ap (λ t. length (t ++ text)) cons)) in
      subst (Appended text (c ∷ cs)) cons
        (c ∷ after, rw (nz, done) refl, rw (nz, reads) refl, ap suc long)
]

-- Without a NUL in the buffer the call is undefined.
pub strcat-none : (text buff : List ℕ) → c_string buff ≡ none → strcat text buff ≡ none
unfolding strcat c_string
strcat-none text [] e = refl
strcat-none text (c ∷ cs) e = elim (Bool-cases (c == 0)) [
  | inl z ↦ let bad = rw (c_string, z) at e in absurd (cc)
  | inr nz ↦ rw (nz, strcat-none text cs (map-none (c_string cs) (rw (c_string, nz) at e))) refl
]
  where
    map-none : (o : Option (List ℕ)) → Option.map (λ t. c ∷ t) o ≡ none → o ≡ none
    map-none none e = refl
    map-none (some t) e = absurd (cc)
