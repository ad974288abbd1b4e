-- ===== src/Prelude/Options.antt =====
-- `?` on an option.
use mathlib.Core.Option.{Option, none, some}

infixl 5 ◌>>=◌
abbrev pub ◌>>=◌ {ℓ κ} : {A : Type ℓ} {B : Type κ} → Option A → (A → Option B) → Option B
none >>= rest = none
some a >>= rest = rest a
