-- ===== src/Prelude/Split.antt =====
-- strings.Split for a separator of one character, given by its code.
use Prim.Native.Char.{Char, code}
use Prim.Native.Nat.{ℕ, compare, Ordering}
use Prim.Native.String.{String, ◌++◌ as ◌<>◌}
use mathlib.Core.Path.{◌≡◌, refl}
use mathlib.Core.Bool.{Bool, true, false}
use mathlib.Core.List.{List, [], ◌∷◌}
use native.Mathlib.Omega.{arith}
use text.Mathlib.TextLemmas.{nil-append, cons-append}
use helm_operator_plugins.Prelude.Tests.{if◌then◌else◌}

abbrev pub is_code : ℕ → Char → Bool
is_code n c = elim (compare (code c) n) [ Ordering.eq ↦ true | _ ↦ false ]

unfoldable pub split : ℕ → String → List String
split n String.[] = "" ∷ []
split n (String.◌∷◌ c s) =
    let rest = split n s in
    if is_code n c
    then "" ∷ rest
    else elim rest [ [] ↦ String.◌∷◌ c "" ∷ [] | p ∷ ps ↦ String.◌∷◌ c p ∷ ps ]

abbrev pub Lacks : ℕ → String → Type 0
Lacks n String.[] = Unit
Lacks n (String.◌∷◌ c s) = (is_code n c ≡ false) × Lacks n s

pub split_whole : (n : ℕ) (s : String) → Lacks n s → split n s ≡ s ∷ []
unfolding split
split_whole n String.[] h = refl
split_whole n (String.◌∷◌ c s) (other_code, h) = ground (arith, other_code, split_whole n s h)

pub split_at :
    (n : ℕ) (s : String) (c : Char) (rest : String)
    → is_code n c ≡ true
    → Lacks n s
    → split n (s <> String.◌∷◌ c rest) ≡ s ∷ split n rest
unfolding split
split_at n String.[] c rest e h = rw (nil-append (String.◌∷◌ c rest)) (ground (arith, e))
split_at n (String.◌∷◌ d s) c rest e (other_code, h) =
    rw (cons-append d s (String.◌∷◌ c rest)) (ground (arith, other_code, split_at n s c rest e h))
