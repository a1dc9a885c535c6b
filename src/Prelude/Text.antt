-- ===== src/Prelude/Text.antt =====
-- Equality of texts.
use Prim.Native.String.{String}
use text.Mathlib.Text.{◌==◌}
use text.Mathlib.TextEquality.{eq_iff}
use mathlib.Core.Path.{◌≡◌}
use mathlib.Core.Logic.{◌↔◌}
use mathlib.Core.Bool.{Bool, true}

abbrev pub string_eq : String → String → Bool
string_eq a b = a == b

pub string_eq_iff : (a b : String) → (string_eq a b ≡ true) ↔ (a ≡ b)
string_eq_iff a b = eq_iff a b
