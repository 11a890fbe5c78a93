-- ===== src/Prelude/Keys.antt =====
-- Keys of maps: types whose equality is decided.
use Prim.Native.Nat.{ℕ}
use Prim.Native.String.{String}
use mathlib.Core.Path.{◌≡◌}
use mathlib.Core.Bool.{false}
use mathlib.Core.Logic.{inl, inr}
use native.Mathlib.Decide.{ℕ_discrete}
use native.Mathlib.Omega.{arith}
use text.Mathlib.Text.{◌==◌ as str_eq}
use text.Mathlib.TextEquality.{eq_iff}
use sip_exporter.Prelude.Tests.{Bool-cases}

-- Go's `==` on a comparable type.
pub record Key {ℓ} (A : Type ℓ) : Type ℓ where
  pub same : Discrete A

pub unequal : (s t : String) → str_eq s t ≡ false → ¬ (s ≡ t)
unequal s t e p = ground (arith, eq_iff s t)

unfoldable pub String-discrete : Discrete String
unfolding Bool-cases
String-discrete s t = elim (Bool-cases (str_eq s t)) [
  | inl e ↦ yes ((eq_iff s t).0 e)
  | inr e ↦ no (unequal s t e)
]

instance abbrev pub nat_key : Key ℕ
nat_key = record { same = ℕ_discrete }

instance abbrev pub string_key : Key String
string_key = record { same = String-discrete }
