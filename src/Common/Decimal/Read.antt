-- ===== src/Common/Decimal/Read.antt =====
-- `atoi` on a number that something follows.
use Prim.Native.Nat.{ℕ, suc, zero, ◌+◌, ◌/◌, ◌%◌, ◌<◌}
use mathlib.Core.Path.{◌≡◌, refl, sym, ap, ◌∙◌}
use mathlib.Core.Logic.{inl, inr}
use mathlib.Core.Bool.{Bool, true, false, ◌&&◌}
use mathlib.Core.List.{List, [], ◌∷◌, ◌++◌, append-nil}
use native.Mathlib.Omega.{arith}
use operating_systems_fa.Common.Tests.{ltb, Bool-cases}
use operating_systems_fa.Common.Ints.{pos}
use operating_systems_fa.Common.Atoi.{atoi, digits_value, is_digit, signed}
use operating_systems_fa.Common.Text.{no_nul}
use operating_systems_fa.Common.Decimal.{
  decimal_loop, decimal, pow10, decimal-DigitFirst, atoi-digits, signed-pos,
  digits_value-decimal_loop,
}

pub decimal_loop-append :
    (k n : ℕ) (xs ys : List ℕ) → decimal_loop k n (xs ++ ys) ≡ decimal_loop k n xs ++ ys
unfolding decimal_loop
decimal_loop-append zero n xs ys = refl
decimal_loop-append (suc k) n xs ys = elim (Bool-cases (ltb n 10)) [
  | inl small ↦ rw small refl
  | inr big ↦ rw big (decimal_loop-append k (n / 10) ((48 + n % 10) ∷ xs) ys)
]

digits_value-end : (n c : ℕ) (rest : List ℕ) → is_digit c ≡ false → digits_value n (c ∷ rest) ≡ n
unfolding digits_value
digits_value-end n c rest other = rw other refl

-- `atoi` reads the number in front of a byte that is no digit.
pub atoi-decimal_before :
    (n c : ℕ) (rest : List ℕ)
    → is_digit c ≡ false
    → n < pow10 10
    → atoi (decimal n ++ c ∷ rest) ≡ pos n
unfolding decimal
atoi-decimal_before n c rest other lt =
    let (d, ds, e, low, high) = decimal-DigitFirst n in
    ap (λ t. atoi (t ++ c ∷ rest)) e
    ∙ atoi-digits d (ds ++ c ∷ rest) low high
    ∙ ap (λ t. signed false (digits_value 0 (t ++ c ∷ rest))) (sym e)
    ∙ ap (λ t. signed false (digits_value 0 t)) (sym (decimal_loop-append 10 n [] (c ∷ rest)))
    ∙ ap (signed false)
        (digits_value-decimal_loop 10 n (c ∷ rest) lt ∙ digits_value-end n c rest other)
    ∙ signed-pos n

-- Every byte of a number is one of the digits.
abbrev pub all_digits : List ℕ → Bool
all_digits [] = true
all_digits (c ∷ cs) = is_digit c && all_digits cs

all_digits-decimal_loop :
    (k n : ℕ) (digits : List ℕ)
    → all_digits digits ≡ true
    → all_digits (decimal_loop k n digits) ≡ true
unfolding decimal_loop is_digit
all_digits-decimal_loop zero n digits e = e
all_digits-decimal_loop (suc k) n digits e =
    ground
      (arith, e, all_digits-decimal_loop k (n / 10) ((48 + n % 10) ∷ digits) (ground (arith, e)))

pub all_digits-decimal : (n : ℕ) → all_digits (decimal n) ≡ true
unfolding decimal
all_digits-decimal n = all_digits-decimal_loop 10 n [] refl

pub no_nul-digits :
    (text rest : List ℕ)
    → all_digits text ≡ true
    → no_nul rest ≡ true
    → no_nul (text ++ rest) ≡ true
unfolding is_digit
no_nul-digits [] rest digits clean = clean
no_nul-digits (c ∷ cs) rest digits clean =
    ground (arith, digits, no_nul-digits cs rest (ground (arith, digits)) clean)

pub no_nul-decimal : (n : ℕ) → no_nul (decimal n) ≡ true
no_nul-decimal n =
    ap no_nul (sym (append-nil (decimal n)))
    ∙ no_nul-digits (decimal n) [] (all_digits-decimal n) refl
