-- ===== src/Common/Htons.antt =====
-- `htons` on an `int`, which becomes 16 bits first; the order of the bytes is undone on the other
-- side of the network, and left out.
use Prim.Native.Nat.{ℕ, ◌-◌, ◌%◌, ◌^◌}
use operating_systems_fa.Common.Ints.{ℤ, pos, negsuc}

unfoldable pub htons : ℤ → ℕ
htons (pos n) = n % 2 ^ 16
htons (negsuc n) = 65535 - n % 2 ^ 16
