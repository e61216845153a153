-- ===== src/Common/Decimal/Width.antt =====
-- How many digits a number has.
use Prim.Native.Nat.{ℕ, suc, zero, ◌+◌, ◌/◌, ◌%◌, ◌<◌, ◌≤◌}
use mathlib.Core.List.{List, [], ◌∷◌}
use native.Mathlib.Omega.{arith}
use operating_systems_fa.Common.Lists.{length}
use operating_systems_fa.Common.Decimal.{decimal_loop, decimal, pow10, length-decimal_loop-le}

length-decimal_loop-grows :
    (m n : ℕ) (digits : List ℕ) → length digits ≤ length (decimal_loop m n digits)
unfolding decimal_loop
length-decimal_loop-grows zero n digits = omega arith
length-decimal_loop-grows (suc m) n digits =
    ground (arith, length-decimal_loop-grows m (n / 10) ((48 + n % 10) ∷ digits))

pow10-pos : (k : ℕ) → 0 < pow10 k
pow10-pos zero = omega arith
pow10-pos (suc k) = omega (arith, pow10-pos k)

-- More than `k` digits from 10^k on.
length-decimal_loop-ge :
    (k n : ℕ) (digits : List ℕ) (m : ℕ)
    → k < m
    → pow10 k ≤ n
    → k + 1 + length digits ≤ length (decimal_loop m n digits)
unfolding decimal_loop
length-decimal_loop-ge k n digits zero lt le = absurd (omega arith)
length-decimal_loop-ge zero n digits (suc m) lt le =
    ground (arith, length-decimal_loop-grows m (n / 10) ((48 + n % 10) ∷ digits))
length-decimal_loop-ge (suc k) n digits (suc m) lt le = ground (
  arith,
  length-decimal_loop-ge k (n / 10) ((48 + n % 10) ∷ digits) m (omega arith) (omega arith),
  pow10-pos k,
)

-- A number has at most `k` digits exactly if it is below 10^k.
pub length-decimal-le : (k n : ℕ) → 0 < k → k ≤ 10 → n < pow10 k → length (decimal n) ≤ k
unfolding decimal
length-decimal-le k n pos_k le lt = omega (arith, length-decimal_loop-le k n [] 10 pos_k le lt)

pub length-decimal-gt : (k n : ℕ) → k < 10 → pow10 k ≤ n → k < length (decimal n)
unfolding decimal
length-decimal-gt k n lt le = omega (arith, length-decimal_loop-ge k n [] 10 lt le)
