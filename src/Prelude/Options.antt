-- ===== src/Prelude/Options.antt =====
-- Chains of steps that may have no value.
use mathlib.Core.Option.{Option, none, some}

infixl 5 ◌>>=◌
abbrev pub ◌>>=◌ {ι κ} : {U : Type ι} {V : Type κ} → Option U → (U → Option V) → Option V
none >>= next = none
some value >>= next = next value
