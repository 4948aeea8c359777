-- ===== src/Base/Keys.antt =====
-- Texts as keys of tables.
use mathlib.Core.Path.{◌≡◌}
use mathlib.Core.Logic.{◌≢◌, ◌⊎◌, inl, inr}
use signalwatch.Base.Tests.{Bool-cases}
use mathlib.Core.Bool.{true, false}
use native.Mathlib.Omega.{arith}
use Prim.Native.String.{String}
use text.Mathlib.Text.{◌==◌}
use text.Mathlib.TextEquality.{eq_iff}

-- A text that is one key is not another.
pub eq_apart : (a b x : String) → b ≢ a → (x == a) ≡ true → (x == b) ≡ false
eq_apart a b x ne h = ground (arith, eq_iff x a, eq_iff x b)

pub ne_of : (a b : String) → b ≢ a → (a == b) ≡ false
ne_of a b ne = ground (arith, eq_iff a b)

pub same_or_apart : (a b : String) → (a ≡ b) ⊎ (a ≢ b)
same_or_apart a b = elim (Bool-cases (a == b)) [
  | inl h ↦ inl ((eq_iff a b).0 h)
  | inr h ↦ inr (λ e. ground (arith, eq_iff a b))
]
