-- ===== src/Base/Sums.antt =====
-- The steps of a sum that loops over memory take.
use Prim.Native.Nat.{ℕ, suc, ◌+◌}
use mathlib.Core.Path.{◌≡◌}
use native.Mathlib.Omega.{arith}

pub add_zero : (p : ℕ) → p + 0 ≡ p
add_zero p = omega arith

pub one_more : (p a : ℕ) → p + 1 + a ≡ p + suc a
one_more p a = omega arith

pub suc_add : (a b : ℕ) → suc a + b ≡ suc (a + b)
suc_add a b = omega arith

pub add_suc : (k d : ℕ) → k + suc d ≡ suc (k + d)
add_suc k d = omega arith

pub add_assoc : (a b c : ℕ) → a + b + c ≡ a + (b + c)
add_assoc a b c = omega arith
