-- ===== src/Prelude/Partial.antt =====
-- Code that may panic: `none` is a panic (an index or a slice out of range), or fuel that ran out.
use mathlib.Core.Option.{Option, none, some}

infixl 5 ◌>>=◌
abbrev pub ◌>>=◌ {ℓ} : {A B : Type ℓ} → Option A → (A → Option B) → Option B
none >>= f = none
some a >>= f = f a
