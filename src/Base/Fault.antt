-- ===== src/Base/Fault.antt =====
-- Code that can throw or reach undefined behaviour returns an option: `none` is the fault.
use mathlib.Core.Option.{Option, none, some}

infixl 5 ◌>>=◌
abbrev pub ◌>>=◌ {ℓ κ} : {A : Type ℓ} {B : Type κ} → Option A → (A → Option B) → Option B
none >>= f = none
some a >>= f = f a
