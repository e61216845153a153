-- ===== src/Common/Decimal/Columns.antt =====
-- Numbers in three columns: the spaces that A3/server.c and A3/client.c put in front of them, and
-- `%3d` of `printf`.
use Prim.Native.Nat.{ℕ, ◌-◌}
use mathlib.Core.Path.{◌≡◌, sym, ap, ◌∙◌}
use mathlib.Core.Logic.{inl, inr}
use mathlib.Core.List.{List, [], ◌++◌, append_assoc}
use native.Mathlib.Omega.{arith}
use operating_systems_fa.Common.Tests.{ltb, if◌then◌else◌, Bool-cases, ltb→lt}
use operating_systems_fa.Common.Lists.{length, replicate}
use operating_systems_fa.Common.Ints.{ℤ, pos, ltb_ℤ}
use operating_systems_fa.Common.Text.{codes}
use operating_systems_fa.Common.Decimal.{decimal, length-decimal}
use operating_systems_fa.Common.Decimal.Width.{length-decimal-gt}

-- The spaces in front of a number of fewer than three digits.
abbrev pub gap : ℕ → List ℕ
gap n = if ltb n 10 then codes "  " else if ltb n 100 then codes " " else []

abbrev pub gap_ℤ : ℤ → List ℕ
gap_ℤ n = if ltb_ℤ n (pos 10) then codes "  " else if ltb_ℤ n (pos 100) then codes " " else []

abbrev pub percent_3d : ℕ → List ℕ
percent_3d n = replicate (3 - length (decimal n)) 32 ++ decimal n

gap-columns : (n : ℕ) → gap n ≡ replicate (3 - length (decimal n)) 32
gap-columns n = elim (Bool-cases (ltb n 10000)) [
  | inl small ↦ rw (length-decimal n (ltb→lt n 10000 small)) (ground arith)
  | inr large ↦
      let none_left : 3 - length (decimal n) ≡ 0 =
        omega (arith, length-decimal-gt 3 n (omega arith) (ground (arith, large))) in
      rw none_left (ground (arith, large))
]

pub gap-percent_3d : (n : ℕ) (rest : List ℕ) → gap n ++ (decimal n ++ rest) ≡ percent_3d n ++ rest
gap-percent_3d n rest =
    sym (append_assoc (gap n) (decimal n) rest)
    ∙ ap (λ spaces. (spaces ++ decimal n) ++ rest) (gap-columns n)

pub gap_ℤ-pos : (n : ℕ) → gap_ℤ (pos n) ≡ gap n
gap_ℤ-pos n = ground arith
