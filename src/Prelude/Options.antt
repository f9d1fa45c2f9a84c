-- ===== src/Prelude/Options.antt =====
-- Results that can be missing, chained.
use mathlib.Core.Option.{Option, none, some}

infixl 10 ◌>>=◌
abbrev pub ◌>>=◌ {ℓ m} : {A : Type ℓ} {B : Type m} → Option A → (A → Option B) → Option B
none >>= f = none
some a >>= f = f a
