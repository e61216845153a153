-- ===== src/Common/Decimal.antt =====
-- `%d` of `printf`, and what `atoi` reads of it.
pub mod Columns
pub mod Read
pub mod Width
use Prim.Native.Nat.{ℕ, suc, zero, ◌+◌, ◌-◌, ◌*◌, ◌/◌, ◌%◌, ◌<◌, ◌≤◌}
use mathlib.Core.Path.{◌≡◌, refl, sym, ap, ◌∙◌}
use mathlib.Core.Logic.{inl, inr}
use mathlib.Core.Bool.{false}
use mathlib.Core.List.{List, [], ◌∷◌}
use native.Mathlib.Omega.{arith}
use operating_systems_fa.Common.Tests.{ltb, if◌then◌else◌, Bool-cases, ltb→lt}
use operating_systems_fa.Common.Lists.{length}
use operating_systems_fa.Common.Ints.{ℤ, pos, negsuc}
use operating_systems_fa.Common.Atoi.{atoi, after_space, digits_value, is_digit, is_space, signed}

-- An `int` that is not negative has at most ten digits.
unfoldable pub decimal_loop : ℕ → ℕ → List ℕ → List ℕ
decimal_loop zero n digits = digits
decimal_loop (suc k) n digits =
    let more = decimal_loop k (n / 10) ((48 + n % 10) ∷ digits) in
    if ltb n 10 then (48 + n) ∷ digits else more

unfoldable pub decimal : ℕ → List ℕ
unfolding decimal_loop
decimal n = decimal_loop 10 n []

unfoldable pub decimal_ℤ : ℤ → List ℕ
decimal_ℤ (pos n) = decimal n
decimal_ℤ (negsuc n) = b'-' ∷ decimal (suc n)

-- The number of digits: one more for each further factor of ten.
module _ (k n : ℕ) (digits : List ℕ) where
  length-one_digit : n < 10 → length (decimal_loop (suc k) n digits) ≡ length digits + 1
  unfolding decimal_loop
  length-one_digit lt = ground arith

  length-next_digit :
      10 ≤ n
      → length (decimal_loop (suc k) n digits)
        ≡ length (decimal_loop k (n / 10) ((48 + n % 10) ∷ digits))
  unfolding decimal_loop
  length-next_digit le = ground arith

module _ (k n : ℕ) (digits : List ℕ) where
  length-two_digits :
      10 ≤ n → n < 100 → length (decimal_loop (suc (suc k)) n digits) ≡ length digits + 2
  length-two_digits le lt = omega (
    arith,
    length-next_digit (suc k) n digits le,
    length-one_digit k (n / 10) ((48 + n % 10) ∷ digits) (omega arith),
  )

module _ (k n : ℕ) (digits : List ℕ) where
  length-three_digits :
      100 ≤ n → n < 1000 → length (decimal_loop (suc (suc (suc k))) n digits) ≡ length digits + 3
  length-three_digits le lt = omega (
    arith,
    length-next_digit (suc (suc k)) n digits (omega arith),
    length-two_digits k (n / 10) ((48 + n % 10) ∷ digits) (omega arith) (omega arith),
  )

module _ (k n : ℕ) (digits : List ℕ) where
  length-four_digits :
      1000 ≤ n
      → n < 10000
      → length (decimal_loop (suc (suc (suc (suc k)))) n digits) ≡ length digits + 4
  length-four_digits le lt = omega (
    arith,
    length-next_digit (suc (suc (suc k))) n digits (omega arith),
    length-three_digits k (n / 10) ((48 + n % 10) ∷ digits) (omega arith) (omega arith),
  )

-- How many digits a number below 10000 has.
abbrev pub width : ℕ → ℕ
width n = if ltb 999 n then 4 else if ltb 99 n then 3 else if ltb 9 n then 2 else 1

pub length-decimal : (n : ℕ) → n < 10000 → length (decimal n) ≡ width n
unfolding decimal
length-decimal n lt = elim (Bool-cases (ltb 999 n)) [
  | inl a ↦ rw a (length-four_digits 6 n [] (ltb→lt 999 n a) lt)
  | inr a ↦ elim (Bool-cases (ltb 99 n)) [
    | inl b ↦ rw (a, b) (length-three_digits 7 n [] (ltb→lt 99 n b) (ground (arith, a)))
    | inr b ↦ elim (Bool-cases (ltb 9 n)) [
      | inl c ↦ rw (a, b, c) (length-two_digits 8 n [] (ltb→lt 9 n c) (ground (arith, b)))
      | inr c ↦ rw (a, b, c) (length-one_digit 9 n [] (ground (arith, c)))
    ]
  ]
]

abbrev pub pow10 : ℕ → ℕ
pow10 zero = 1
pow10 (suc k) = 10 * pow10 k

-- At most `k` digits below 10^k.
pub length-decimal_loop-le :
    (k n : ℕ) (digits : List ℕ) (m : ℕ)
    → 0 < k
    → k ≤ m
    → n < pow10 k
    → length (decimal_loop m n digits) ≤ k + length digits
unfolding decimal_loop
length-decimal_loop-le zero n digits m pos_k le lt = absurd (omega arith)
length-decimal_loop-le (suc k) n digits zero pos_k le lt = absurd (omega arith)
length-decimal_loop-le (suc zero) n digits (suc m) pos_k le lt = ground arith
length-decimal_loop-le (suc (suc k)) n digits (suc m) pos_k le lt = ground (
  arith,
  length-decimal_loop-le (suc k) (n / 10) ((48 + n % 10) ∷ digits) m (omega arith) (omega arith)
      (omega arith),
)

-- The digits are read back as the number.
pub digits_value-decimal_loop :
    (k n : ℕ) (digits : List ℕ)
    → n < pow10 k
    → digits_value 0 (decimal_loop k n digits) ≡ digits_value n digits
unfolding decimal_loop digits_value is_digit
digits_value-decimal_loop zero n digits lt =
    let none_left : 0 ≡ n = omega arith in ap (λ a. digits_value a digits) none_left
digits_value-decimal_loop (suc k) n digits lt = elim (Bool-cases (ltb n 10)) [
  | inl small ↦
      let same : 0 * 10 + (48 + n - 48) ≡ n = omega arith in
      rw small (ground (arith, ap (λ a. digits_value a digits) same))
  | inr big ↦ rw big (
      digits_value-decimal_loop k (n / 10) ((48 + n % 10) ∷ digits) (omega arith)
      ∙ next_digit n digits)
]
  where
    next_digit :
        (n : ℕ) (digits : List ℕ)
        → digits_value (n / 10) ((48 + n % 10) ∷ digits) ≡ digits_value n digits
    next_digit n digits =
        let same : n / 10 * 10 + (48 + n % 10 - 48) ≡ n = omega arith in
        ground (arith, ap (λ a. digits_value a digits) same)

-- A number begins with a digit.
abbrev pub DigitFirst : List ℕ → Type 0
DigitFirst text = (c : ℕ) × (cs : List ℕ) × (text ≡ c ∷ cs) × (48 ≤ c) × (c ≤ 57)

decimal_loop-DigitFirst :
    (k n d : ℕ) (digits : List ℕ) → 48 ≤ d → d ≤ 57 → DigitFirst (decimal_loop k n (d ∷ digits))
unfolding decimal_loop
decimal_loop-DigitFirst zero n d digits low high = (d, digits, refl, low, high)
decimal_loop-DigitFirst (suc k) n d digits low high = elim (Bool-cases (ltb n 10)) [
  | inl small ↦ (48 + n, d ∷ digits, rw small, omega arith, ground arith)
  | inr big ↦
      let (c, cs, e, low', high') =
        decimal_loop-DigitFirst k (n / 10) (48 + n % 10) (d ∷ digits) (omega arith) (omega arith) in
      (c, cs, rw big e, low', high')
]

pub decimal-DigitFirst : (n : ℕ) → DigitFirst (decimal n)
unfolding decimal decimal_loop
decimal-DigitFirst n = elim (Bool-cases (ltb n 10)) [
  | inl small ↦ (48 + n, [], rw small, omega arith, ground arith)
  | inr big ↦
      let (c, cs, e, low, high) =
        decimal_loop-DigitFirst 9 (n / 10) (48 + n % 10) [] (omega arith) (omega arith) in
      (c, cs, rw big e, low, high)
]

pub atoi-digits :
    (c : ℕ) (cs : List ℕ) → 48 ≤ c → c ≤ 57 → atoi (c ∷ cs) ≡ signed false (digits_value 0 (c ∷ cs))
unfolding atoi after_space is_space
atoi-digits c cs low high = ground arith

pub signed-pos : (n : ℕ) → signed false n ≡ pos n
unfolding signed
signed-pos zero = refl
signed-pos (suc n) = refl

-- `atoi` reads back what `%d` has printed, for a number of at most ten digits.
pub atoi-decimal : (n : ℕ) → n < pow10 10 → atoi (decimal n) ≡ pos n
unfolding decimal digits_value
atoi-decimal n lt =
    let (c, cs, e, low, high) = decimal-DigitFirst n in
    ap atoi e
    ∙ atoi-digits c cs low high
    ∙ ap (λ t. signed false (digits_value 0 t)) (sym e)
    ∙ ap (signed false) (digits_value-decimal_loop 10 n [] lt)
    ∙ signed-pos n
