-- ===== src/Common/Strtol/Decimal.antt =====
-- `strtol` with base 0 on a number that `%d` has printed: it has no zero in front, so that it is
-- read as decimal.
use Prim.Native.Nat.{ℕ, suc, zero, ◌+◌, ◌-◌, ◌*◌, ◌/◌, ◌%◌, ◌<◌, ◌≤◌}
use mathlib.Core.Path.{◌≡◌, refl, sym, ap, ◌∙◌}
use mathlib.Core.Logic.{inl, inr}
use mathlib.Core.Bool.{false}
use mathlib.Core.List.{List, [], ◌∷◌, ◌++◌}
use mathlib.Core.Option.{some}
use native.Mathlib.Omega.{arith}
use operating_systems_fa.Common.Tests.{ltb, Bool-cases}
use operating_systems_fa.Common.Ints.{pos}
use operating_systems_fa.Common.Atoi.{is_digit, is_space, signed}
use operating_systems_fa.Common.Decimal.{decimal_loop, decimal, pow10, signed-pos}
use operating_systems_fa.Common.Decimal.Read.{decimal_loop-append}
use operating_systems_fa.Common.Strtol.{
  Conversion, digit, strtol_digits, converted, unsigned, behind_space, strtol, low_bits, to_int,
}

-- A number other than 0 begins with a digit other than 0.
abbrev NonZeroFirst : List ℕ → Type 0
NonZeroFirst text = (c : ℕ) × (cs : List ℕ) × (text ≡ c ∷ cs) × (49 ≤ c) × (c ≤ 57)

decimal_loop-NonZeroFirst :
    (k n : ℕ) (digits : List ℕ) → 0 < n → n < pow10 k → NonZeroFirst (decimal_loop k n digits)
unfolding decimal_loop
decimal_loop-NonZeroFirst zero n digits pos_n lt = absurd (omega arith)
decimal_loop-NonZeroFirst (suc k) n digits pos_n lt = elim (Bool-cases (ltb n 10)) [
  | inl small ↦ (48 + n, digits, rw small refl, omega arith, ground arith)
  | inr big ↦
      let (c, cs, e, low, high) =
        decimal_loop-NonZeroFirst k (n / 10) ((48 + n % 10) ∷ digits) (ground (arith, big))
          (omega arith) in
      (c, cs, rw big e, low, high)
]

strtol_digits-decimal_loop :
    (k n : ℕ) (digits : List ℕ)
    → n < pow10 k
    → strtol_digits 10 0 (decimal_loop k n digits) ≡ strtol_digits 10 n digits
unfolding decimal_loop strtol_digits digit is_digit
strtol_digits-decimal_loop zero n digits lt =
    let none_left : 0 ≡ n = omega arith in ap (λ a. strtol_digits 10 a digits) none_left
strtol_digits-decimal_loop (suc k) n digits lt = elim (Bool-cases (ltb n 10)) [
  | inl small ↦
      let same : 0 * 10 + (48 + n - 48) ≡ n = omega arith in
      rw small (ground (arith, ap (λ a. strtol_digits 10 a digits) same))
  | inr big ↦ rw big (
      strtol_digits-decimal_loop k (n / 10) ((48 + n % 10) ∷ digits) (omega arith)
      ∙ next_digit n digits)
]
  where
    next_digit :
        (n : ℕ) (digits : List ℕ)
        → strtol_digits 10 (n / 10) ((48 + n % 10) ∷ digits) ≡ strtol_digits 10 n digits
    next_digit n digits =
        let same : n / 10 * 10 + (48 + n % 10 - 48) ≡ n = omega arith in
        ground (arith, ap (λ a. strtol_digits 10 a digits) same)

unsigned-decimal :
    (c : ℕ) (rest : List ℕ)
    → 49 ≤ c
    → c ≤ 57
    → unsigned false (c ∷ rest) ≡ converted false (strtol_digits 10 0 (c ∷ rest))
unfolding unsigned is_digit
unsigned-decimal c [] low high = ground arith
unsigned-decimal c (x ∷ []) low high = ground arith
unsigned-decimal c (x ∷ h ∷ cs) low high = ground arith

strtol-first :
    (c : ℕ) (rest : List ℕ)
    → 49 ≤ c
    → c ≤ 57
    → strtol (c ∷ rest) ≡ converted false (strtol_digits 10 0 (c ∷ rest))
unfolding strtol behind_space is_space
strtol-first c rest low high = ground (arith, unsigned-decimal c rest low high)

-- What `strtol` answers for a number below 10^10 and a newline.
abbrev pub number_line : ℕ → Conversion
number_line n = record { value = pos n; behind = some (10 ∷ []); out_of_range = false }

converted-number : (n : ℕ) → n < pow10 10 → converted false (n, 10 ∷ []) ≡ number_line n
unfolding converted
converted-number n lt =
    let within : ltb 9223372036854775807 n ≡ false = ground arith in rw (within, signed-pos n) refl

strtol-zero : strtol (decimal 0 ++ 10 ∷ []) ≡ number_line 0
unfolding decimal decimal_loop strtol behind_space is_space unsigned is_digit strtol_digits digit
    converted signed
strtol-zero = refl

pub strtol-decimal : (n : ℕ) → n < pow10 10 → strtol (decimal n ++ 10 ∷ []) ≡ number_line n
unfolding decimal strtol_digits digit is_digit
strtol-decimal zero lt = strtol-zero
strtol-decimal (suc m) lt =
    let n = suc m in
    let (c, cs, e, low, high) = decimal_loop-NonZeroFirst 10 n [] (omega arith) lt in
    ap (λ t. strtol (t ++ 10 ∷ [])) e
    ∙ strtol-first c (cs ++ 10 ∷ []) low high
    ∙ ap (λ t. converted false (strtol_digits 10 0 (t ++ 10 ∷ []))) (sym e)
    ∙ ap (λ t. converted false (strtol_digits 10 0 t)) (sym (decimal_loop-append 10 n [] (10 ∷ [])))
    ∙ ap (converted false) (strtol_digits-decimal_loop 10 n (10 ∷ []) lt)
    ∙ converted-number n lt

pub to_int-pos : (n : ℕ) → n < 2147483648 → to_int (pos n) ≡ pos n
unfolding to_int low_bits
to_int-pos n lt = let same : n % 4294967296 ≡ n = omega arith in rw same (ground arith)
