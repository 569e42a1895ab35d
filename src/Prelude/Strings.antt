-- ===== src/Prelude/Strings.antt =====
-- Go's order on strings: the bytes of UTF-8 are ordered as the code points are.
use Prim.Native.Char.{code}
use Prim.Native.Nat.{compare, Ordering}
use Prim.Native.String.{String}
use mathlib.Core.Path.{◌≡◌, refl}
use mathlib.Core.Bool.{Bool, true, false}
use native.Mathlib.Omega.{arith}
use text.Mathlib.TextEquality.{codes_equal}

unfoldable pub precedes : String → String → Bool
precedes s String.[] = false
precedes String.[] (String.◌∷◌ d t) = true
precedes (String.◌∷◌ c s) (String.◌∷◌ d t) = elim (compare (code c) (code d)) [
  | Ordering.lt ↦ true
  | Ordering.eq ↦ precedes s t
  | Ordering.gt ↦ false
]

pub precedes_irrefl : (s : String) → precedes s s ≡ false
unfolding precedes
precedes_irrefl String.[] = refl
precedes_irrefl (String.◌∷◌ c s) = ground (arith, precedes_irrefl s)

pub precedes_trans :
    (s t u : String) → precedes s t ≡ true → precedes t u ≡ true → precedes s u ≡ true
unfolding precedes
precedes_trans s String.[] u h k = cc
precedes_trans s (String.◌∷◌ d t) String.[] h k = cc
precedes_trans String.[] (String.◌∷◌ d t) (String.◌∷◌ e u) h k = refl
precedes_trans (String.◌∷◌ c s) (String.◌∷◌ d t) (String.◌∷◌ e u) h k =
    ground (arith, precedes_trans s t u, h, k)

pub precedes_total : (s t : String) → precedes s t ≡ false → precedes t s ≡ false → s ≡ t
unfolding precedes
precedes_total String.[] String.[] h k = refl
precedes_total (String.◌∷◌ c s) String.[] h k = cc
precedes_total String.[] (String.◌∷◌ d t) h k = cc
precedes_total (String.◌∷◌ c s) (String.◌∷◌ d t) h k =
    ground (arith, precedes_total s t, codes_equal c d, h, k)
