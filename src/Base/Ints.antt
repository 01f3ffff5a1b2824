-- ===== src/Base/Ints.antt =====
-- A C `int` is its bit pattern, a number below 2 ^ 32, so that -1 is the pattern of all ones.
use Prim.Native.Nat.{ℕ, ◌+◌, ◌-◌, ◌%◌, ◌/◌, ◌^◌}
use mathlib.Core.Bool.{Bool}
use ucas_2024fall_oslab.Base.Tests.{leb, ltb, if◌then◌else◌}

abbrev pub int_mod : ℕ
int_mod = 2 ^ 32

abbrev pub minus_one : ℕ
minus_one = 2 ^ 32 - 1

abbrev pub add_int : ℕ → ℕ → ℕ
add_int a b = (a + b) % int_mod

abbrev pub sub_int : ℕ → ℕ → ℕ
sub_int a b = (a + int_mod - b) % int_mod

-- The signed comparison `a <= b`: both sides moved up by 2 ^ 31.
abbrev pub le_int : ℕ → ℕ → Bool
le_int a b = leb ((a + 2 ^ 31) % int_mod) ((b + 2 ^ 31) % int_mod)

-- The signed quotient `a / b` for a `b` that is positive: it is rounded towards 0.
abbrev pub div_int : ℕ → ℕ → ℕ
div_int a b = if ltb a (2 ^ 31) then a / b else (int_mod - (int_mod - a) / b) % int_mod
