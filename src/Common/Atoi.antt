-- ===== src/Common/Atoi.antt =====
-- `atoi` of <stdlib.h>, over the bytes of a text up to NUL: the number of the text, which is
-- undefined in C beyond `int`; `atoi_int` is `none` there.
use Prim.Native.Nat.{ℕ, suc, zero, ◌+◌, ◌-◌, ◌*◌, ◌<◌}
use mathlib.Core.Path.{◌≡◌}
use mathlib.Core.Option.{Option, none, some}
use native.Mathlib.Omega.{arith}
use mathlib.Core.Bool.{Bool, true, false, ◌&&◌, ◌||◌}
use mathlib.Core.List.{List, [], ◌∷◌}
use operating_systems_fa.Common.Tests.{leb, ltb, ◌==◌, if◌then◌else◌}
use operating_systems_fa.Common.Ints.{ℤ, pos, negsuc}

-- `isspace` and `isdigit` in the C locale.
unfoldable pub is_space : ℕ → Bool
is_space c = c == 32 || leb 9 c && leb c 13

unfoldable pub is_digit : ℕ → Bool
is_digit c = leb b'0' c && leb c b'9'

unfoldable pub digits_value : ℕ → List ℕ → ℕ
unfolding is_digit
digits_value acc [] = acc
digits_value acc (c ∷ cs) =
    let rest = digits_value (acc * 10 + (c - b'0')) cs in if is_digit c then rest else acc

unfoldable pub signed : Bool → ℕ → ℤ
signed negative zero = pos 0
signed false (suc n) = pos (suc n)
signed true (suc n) = negsuc n

unfoldable pub after_space : List ℕ → ℤ
unfolding digits_value signed
after_space [] = pos 0
after_space (c ∷ cs) =
    if c == b'-'
    then signed true (digits_value 0 cs)
    else if c == b'+'
    then signed false (digits_value 0 cs)
    else signed false (digits_value 0 (c ∷ cs))

unfoldable pub atoi : List ℕ → ℤ
unfolding after_space is_space
atoi [] = pos 0
atoi (c ∷ cs) = let rest = atoi cs in if is_space c then rest else after_space (c ∷ cs)

-- Whether a number is an `int`.
abbrev pub is_int : ℤ → Bool
is_int (pos n) = ltb n 2147483648
is_int (negsuc n) = ltb n 2147483648

unfoldable pub atoi_int : List ℕ → Option ℤ
atoi_int text = if is_int (atoi text) then some (atoi text) else none

pub atoi_int-pos :
    (text : List ℕ) (n : ℕ) → atoi text ≡ pos n → n < 2147483648 → atoi_int text ≡ some (pos n)
unfolding atoi_int
atoi_int-pos text n e lt = rw e (ground arith)
