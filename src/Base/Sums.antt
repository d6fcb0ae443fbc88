-- ===== src/Base/Sums.antt =====
-- The number of the bucket that a walk along a table stands at.
use Prim.Native.Nat.{ℕ, suc, ◌+◌}
use mathlib.Core.Path.{◌≡◌}
use native.Mathlib.Omega.{arith}

pub plus_zero : (i : ℕ) → i + 0 ≡ i
plus_zero i = omega arith

pub zero_plus : (k : ℕ) → k ≡ 0 + k
zero_plus k = omega arith

pub plus_suc : (i k : ℕ) → i + suc k ≡ suc i + k
plus_suc i k = omega arith
