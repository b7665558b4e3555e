-- ===== src/Base/Texts.antt =====
-- The equality test of texts.
use Prim.Native.String.{String}
use mathlib.Core.Path.{◌≡◌}
use mathlib.Core.Bool.{Bool, true}
use text.Mathlib.Text.{◌==◌}
use text.Mathlib.TextPositions.{eq_refl}

abbrev pub text_eq : String → String → Bool
text_eq s t = s == t

pub text_eq_self : (s : String) → text_eq s s ≡ true
text_eq_self s = eq_refl s
