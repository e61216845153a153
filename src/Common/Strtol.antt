-- ===== src/Common/Strtol.antt =====
-- `strtol` of <stdlib.h> with base 0, over the bytes of a text up to NUL, and the conversion of its
-- `long` to `int`, which keeps the low 32 bits.
pub mod Decimal
use Prim.Native.Nat.{ℕ, suc, zero, ◌+◌, ◌-◌, ◌*◌, ◌%◌}
use mathlib.Core.Bool.{Bool, true, false, ◌&&◌, ◌||◌}
use mathlib.Core.List.{List, [], ◌∷◌}
use mathlib.Core.Option.{Option, none, some}
use operating_systems_fa.Common.Tests.{leb, ltb, ◌==◌, if◌then◌else◌}
use operating_systems_fa.Common.Ints.{ℤ, pos, negsuc}
use operating_systems_fa.Common.Atoi.{is_digit, is_space, signed}

-- What `strtol` answers: the number, what `endptr` points to (`none` where it is the beginning of
-- the text, since no digits were found), and whether `errno` is set to ERANGE.
pub record Conversion : Type 0 where
  pub value : ℤ
  pub behind : Option (List ℕ)
  pub out_of_range : Bool

-- The value of a digit, 16 or more for any other byte.
unfoldable pub digit : ℕ → ℕ
unfolding is_digit
digit c =
    if is_digit c
    then c - b'0'
    else if leb b'a' c && leb c b'f'
    then c - 87
    else if leb b'A' c && leb c b'F'
    then c - 55
    else 16

unfoldable pub strtol_digits : (base : ℕ) → (value : ℕ) → List ℕ → ℕ × List ℕ
unfolding digit
strtol_digits base value [] = (value, [])
strtol_digits base value (c ∷ cs) =
    let rest = strtol_digits base (value * base + digit c) cs in
    if ltb (digit c) base then rest else (value, c ∷ cs)

abbrev pub long_max : ℕ
long_max = 9223372036854775807

-- The answer for the magnitude, which a `long` may not hold.
unfoldable pub converted : (negative : Bool) → ℕ × List ℕ → Conversion
converted negative (value, rest) =
    let most = if negative then long_max + 1 else long_max in
    record {
      value = signed negative (if ltb most value then most else value);
      behind = some rest;
      out_of_range = ltb most value;
    }

abbrev pub no_digits : Conversion
no_digits = record { value = pos 0; behind = none; out_of_range = false }

abbrev pub is_x : ℕ → Bool
is_x c = c == b'x' || c == b'X'

-- Behind the sign: hexadecimal behind "0x" and a digit, octal behind "0", or decimal.
unfoldable pub unsigned : (negative : Bool) → List ℕ → Conversion
unfolding strtol_digits converted
unsigned negative [] = no_digits
unsigned negative (c ∷ []) =
    if is_digit c then converted negative (strtol_digits 10 0 (c ∷ [])) else no_digits
unsigned negative (c ∷ x ∷ []) =
    if c == b'0'
    then converted negative (strtol_digits 8 0 (c ∷ x ∷ []))
    else if is_digit c
    then converted negative (strtol_digits 10 0 (c ∷ x ∷ []))
    else no_digits
unsigned negative (c ∷ x ∷ h ∷ cs) =
    if c == b'0'
    then if is_x x && ltb (digit h) 16
      then converted negative (strtol_digits 16 0 (h ∷ cs))
      else converted negative (strtol_digits 8 0 (c ∷ x ∷ h ∷ cs))
    else if is_digit c
    then converted negative (strtol_digits 10 0 (c ∷ x ∷ h ∷ cs))
    else no_digits

unfoldable pub behind_space : List ℕ → Conversion
unfolding unsigned
behind_space [] = no_digits
behind_space (c ∷ cs) =
    if c == b'-'
    then unsigned true cs
    else if c == b'+'
    then unsigned false cs
    else unsigned false (c ∷ cs)

unfoldable pub strtol : List ℕ → Conversion
unfolding behind_space is_space
strtol [] = no_digits
strtol (c ∷ cs) = let rest = strtol cs in if is_space c then rest else behind_space (c ∷ cs)

-- The `int` with the low 32 bits of a `long`.
unfoldable pub low_bits : (bits : ℕ) → ℤ
low_bits bits = if ltb bits 2147483648 then pos bits else negsuc (4294967295 - bits)

unfoldable pub to_int : ℤ → ℤ
unfolding low_bits
to_int (pos n) = low_bits (n % 4294967296)
to_int (negsuc n) = low_bits (4294967295 - n % 4294967296)
