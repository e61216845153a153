-- ===== src/Common/Text.antt =====
-- Texts as C has them: bytes in a buffer, up to NUL.
use Prim.Native.Char.{code}
use Prim.Native.String.{String}
use Prim.Native.Nat.{ℕ, suc, ◌<◌}
use mathlib.Core.Path.{◌≡◌, refl, ap}
use mathlib.Core.Bool.{Bool, true, false, not, ◌&&◌}
use mathlib.Core.List.{List, [], ◌∷◌, ◌++◌}
use mathlib.Core.Option
use mathlib.Core.Option.{Option, none, some}
use native.Mathlib.Omega.{arith}
use operating_systems_fa.Common.Lists.{length}
use operating_systems_fa.Common.Tests.{◌==◌, if◌then◌else◌}

-- The bytes of a literal.
abbrev pub codes : String → List ℕ
codes String.[] = []
codes (String.◌∷◌ c s) = code c ∷ codes s

-- The string in a buffer, up to its NUL or to its end.
unfoldable pub to_nul : List ℕ → List ℕ
to_nul [] = []
to_nul (c ∷ cs) = let rest = to_nul cs in if c == 0 then [] else c ∷ rest

-- The same where reading on behind the end is a fault.
unfoldable pub c_string : List ℕ → Option (List ℕ)
c_string [] = none
c_string (c ∷ cs) =
    let rest = c_string cs in if c == 0 then some [] else Option.map (λ s. c ∷ s) rest

-- `read` and `recv` put their bytes over the front of the buffer.
unfoldable pub put_over : List ℕ → List ℕ → List ℕ
put_over [] buff = buff
put_over (b ∷ bytes) [] = []
put_over (b ∷ bytes) (x ∷ buff) = b ∷ put_over bytes buff

abbrev pub behind_first : List ℕ → List ℕ
behind_first [] = []
behind_first (b ∷ bytes) = bytes

abbrev pub no_nul : List ℕ → Bool
no_nul [] = true
no_nul (c ∷ cs) = not (c == 0) && no_nul cs

-- The string that follows the first byte of a buffer into which a text and its NUL have come.
pub c_string-put_over :
    (text buff : List ℕ)
    → no_nul text ≡ true
    → length text < length buff
    → c_string (put_over (text ++ 0 ∷ []) buff) ≡ some text
unfolding put_over c_string
c_string-put_over text [] clean room = absurd (omega arith)
c_string-put_over [] (x ∷ buff) clean room = refl
c_string-put_over (c ∷ cs) (x ∷ buff) clean room =
    let rest = c_string-put_over cs buff (ground (arith, clean)) (omega arith) in
    let c_ne_0 : (c == 0) ≡ false = ground (arith, clean) in rw (c_ne_0, rest) refl

pub length-put_over : (bytes buff : List ℕ) → length (put_over bytes buff) ≡ length buff
unfolding put_over
length-put_over [] buff = refl
length-put_over (b ∷ bytes) [] = refl
length-put_over (b ∷ bytes) (x ∷ buff) = ap suc (length-put_over bytes buff)

pub no_nul-append :
    (xs ys : List ℕ) → no_nul xs ≡ true → no_nul ys ≡ true → no_nul (xs ++ ys) ≡ true
no_nul-append [] ys clean clean' = clean'
no_nul-append (c ∷ cs) ys clean clean' =
    ground (arith, clean, no_nul-append cs ys (ground (arith, clean)) clean')
