-- ===== src/Client/Input.antt =====
-- `check_input` of A3/client.c, on a line that `fgets` has read.
pub mod Numbers
use operating_systems_fa.Common.{
  Bool, [], if◌then◌else◌, ltb_ℤ, none, not, pos, some, true, ℕ, ℤ, ◌==◌, ◌||◌, ◌∷◌,
}
use operating_systems_fa.Common.Strtol.{Conversion, strtol, to_int}
use operating_systems_fa.Client.{Bytes}

-- The program ends, or goes on with the number.
pub data Checked : Type 0 where
  exits : Checked
  accepted : ℤ → Checked

-- "\t" is missing from the test: the code has only the constant behind `&&`.
abbrev pub is_blank : ℕ → Bool
is_blank c = c == b' ' || (c == 13 || c == 10)

-- Whether `endptr` is at the end of the line.
abbrev pub at_end : Bytes → Bool
at_end [] = true
at_end (c ∷ cs) = c == 10

-- The tests of the number for each command.
unfoldable pub check_number : (command : ℕ) → ℤ → Checked
check_number command n =
    if command == b'T'
    then if ltb_ℤ n (pos 0) then exits else accepted n
    else if command == b'S'
    then if ltb_ℤ (pos 100) n || ltb_ℤ n (pos 0) then exits else accepted n
    else accepted n

unfoldable pub check_conversion : (errno : ℕ) → (command : ℕ) → Conversion → Checked
unfolding check_number
check_conversion errno command conversion =
    if conversion.out_of_range || not (errno == 0) then exits else elim conversion.behind [
      | none ↦ exits
      | some rest ↦ if at_end rest then check_number command (to_int conversion.value) else exits
    ]

-- `errno` is the value before the call, which nothing resets. A line is never empty.
unfoldable pub check_input : (errno : ℕ) → Bytes → Checked
unfolding check_conversion
check_input errno [] = exits
check_input errno (c ∷ text) =
    if c == b'T' || (c == b'S' || is_blank c) then check_conversion errno c (strtol text) else exits
