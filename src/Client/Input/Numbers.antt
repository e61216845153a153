-- ===== src/Client/Input/Numbers.antt =====
-- The numbers that `check_input` of A3/client.c accepts.
use operating_systems_fa.Common.{
  Bool-cases, Option, [], ap, arith, false, if◌then◌else◌, inl, inr, ltb, ltb_ℤ, negsuc, none, not,
  pos, refl, some, true, ℕ, ℤ, ◌++◌, ◌<◌, ◌==◌, ◌||◌, ◌∙◌, ◌∷◌, ◌≡◌, ◌≤◌, ◌⊎◌,
}
use operating_systems_fa.Common.Decimal.{decimal}
use operating_systems_fa.Common.Strtol.{Conversion, strtol, to_int, low_bits}
use operating_systems_fa.Common.Strtol.Decimal.{strtol-decimal, to_int-pos}
use operating_systems_fa.Client.{Bytes}
use operating_systems_fa.Client.Input.{
  exits, accepted, is_blank, at_end, check_number, check_conversion, check_input,
}

-- The line "T", a number that an `int` holds, and a newline is accepted with this number, if no
-- earlier call has set `errno`.
pub check_input-work :
    (w : ℕ) → w < 2147483648 → check_input 0 (b'T' ∷ (decimal w ++ 10 ∷ [])) ≡ accepted (pos w)
unfolding check_input check_conversion check_number
check_input-work w lt =
    ap (λ c. check_conversion 0 b'T' c) (strtol-decimal w (omega arith))
    ∙ rw (to_int-pos w lt) (ground arith)

-- What is accepted for each command.
abbrev pub InRange : ℕ → ℤ → Type 0
InRange command n = (k : ℕ) × (n ≡ pos k) × (k < 2147483648) × (command ≡ b'S' → k ≤ 100)

low_bits-bound : (bits k : ℕ) → low_bits bits ≡ pos k → k < 2147483648
unfolding low_bits
low_bits-bound bits k e = elim (Bool-cases (ltb bits 2147483648)) [
  | inl small ↦ let same : bits ≡ k = cc (rw small at e) in ground (arith, small)
  | inr large ↦ cc (rw large at e)
]

to_int-bound : (z : ℤ) (k : ℕ) → to_int z ≡ pos k → k < 2147483648
unfolding to_int
to_int-bound (pos n) k e = low_bits-bound _ k e
to_int-bound (negsuc n) k e = low_bits-bound _ k e

accepted-inj : {m n : ℤ} → accepted m ≡ accepted n → n ≡ m
accepted-inj e = cc

check_number-bound :
    (command : ℕ) (m : ℤ) {n : ℤ}
    → ((k : ℕ) → m ≡ pos k → k < 2147483648)
    → command ≡ b'T' ⊎ command ≡ b'S'
    → check_number command m ≡ accepted n
    → InRange command n
unfolding check_number
check_number-bound command (pos k) bound (inl t) e =
    let not_below : ltb_ℤ (pos k) (pos 0) ≡ false = ground arith in
    (k, accepted-inj (rw (t, not_below) at e), bound k refl, λ s. absurd (omega arith))
check_number-bound command (pos k) bound (inr t) e =
    let not_below : ltb_ℤ (pos k) (pos 0) ≡ false = ground arith in
    elim (Bool-cases (ltb_ℤ (pos 100) (pos k))) [
      | inl above ↦ cc (rw (t, not_below, above) at e)
      | inr within ↦ (
        k,
        accepted-inj (rw (t, not_below, within) at e),
        bound k refl,
        λ s. ground (arith, within),
      )
    ]
check_number-bound command (negsuc k) bound (inl t) e =
    let below : ltb_ℤ (negsuc k) (pos 0) ≡ true = ground arith in cc (rw (t, below) at e)
check_number-bound command (negsuc k) bound (inr t) e =
    let below : ltb_ℤ (negsuc k) (pos 0) ≡ true = ground arith in
    let not_above : ltb_ℤ (pos 100) (negsuc k) ≡ false = ground arith in
    cc (rw (t, below, not_above) at e)

check_conversion-bound :
    (errno command : ℕ) (conversion : Conversion) {n : ℤ}
    → command ≡ b'T' ⊎ command ≡ b'S'
    → check_conversion errno command conversion ≡ accepted n
    → InRange command n
unfolding check_conversion
check_conversion-bound errno command conversion {n} which e =
    elim (Bool-cases (conversion.out_of_range || not (errno == 0))) [
      | inl bad ↦ cc (rw bad at e)
      | inr good ↦ behind_cases conversion.behind (rw good at e)
    ]
  where
    behind_cases :
        (behind : Option Bytes)
        → elim behind [
          | none ↦ exits
          | some rest ↦
              if at_end rest then check_number command (to_int conversion.value) else exits
        ]
          ≡ accepted n
        → InRange command n
    behind_cases none e = cc
    behind_cases (some rest) e = elim (Bool-cases (at_end rest)) [
      | inl end ↦
          check_number-bound command (to_int conversion.value)
            (λ k f. to_int-bound conversion.value k f) which (rw end at e)
      | inr more ↦ cc (rw more at e)
    ]

-- Whatever the line, and whatever was in `errno`: a number that is accepted for T is one that is
-- not negative and that an `int` holds, and for S one of at most 100.
pub check_input-bounds :
    (errno command : ℕ) (text : Bytes) {n : ℤ}
    → command ≡ b'T' ⊎ command ≡ b'S'
    → check_input errno (command ∷ text) ≡ accepted n
    → InRange command n
unfolding check_input
check_input-bounds errno command text which e =
    let known : (command == b'T' || (command == b'S' || is_blank command)) ≡ true = elim which [
      | inl t ↦ rw t refl
      | inr t ↦ rw t refl
    ] in
    check_conversion-bound errno command (strtol text) which (rw known at e)
