-- ===== src/Base/Texts.antt =====
-- The equality test of texts.
use Prim.Native.String.{String, compare}
use Prim.Native.Nat.{Ordering}
use mathlib.Core.Path.{◌≡◌, refl, ap}
use mathlib.Core.Bool.{Bool, true}
use text.Mathlib.Text.{is_eq}
use text.Mathlib.TextEquality.{path_by_compare}
use text.Mathlib.TextPositions.{compare_refl}

unfoldable pub same : String → String → Bool
same s t = is_eq (compare s t)

is_eq-true : (o : Ordering) → is_eq o ≡ true → o ≡ Ordering.eq
is_eq-true Ordering.lt h = cc
is_eq-true Ordering.eq h = refl
is_eq-true Ordering.gt h = cc

pub same-eq : (s t : String) → same s t ≡ true → s ≡ t
unfolding same
same-eq s t h = path_by_compare s t (is_eq-true (compare s t) h)

pub same_refl : (s : String) → same s s ≡ true
unfolding same
same_refl s = ap is_eq (compare_refl s)
