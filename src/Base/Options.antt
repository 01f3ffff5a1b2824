-- ===== src/Base/Options.antt =====
-- Sequencing of computations that may have no result: undefined behaviour, or a loop that does not end.
use mathlib.Core.Option.{Option, none, some}

infixl 20 ◌>>=◌
abbrev pub ◌>>=◌ {ℓ κ} : {A : Type ℓ} {B : Type κ} → Option A → (A → Option B) → Option B
none >>= f = none
some a >>= f = f a
