-- ===== src/Namespaces/Joined.antt =====
-- WATCH_NAMESPACE with a list of names.
use text.Mathlib.TextLemmas.{nil-append, cons-append}
use helm_operator_plugins.Namespaces.{trim_space, non_blank, split_namespaces}
use helm_operator_plugins.Prelude.{
  All, split, Lacks, split_whole, split_at, String, ◌<>◌, ◌≡◌, refl, ap, ◌∙◌, false, List, [], ◌∷◌,
  arith, ◌==◌,
}

-- A name without commas (code 44) and without space at its ends.
abbrev pub IsName : String → Type 0
IsName s = Lacks 44 s × (trim_space s ≡ s) × (s == "" ≡ false)

abbrev pub join : String → List String → String
join ns [] = ns
join ns (m ∷ more) = ns <> ("," <> join m more)

split-comma : (s rest : String) → Lacks 44 s → split 44 (s <> ("," <> rest)) ≡ s ∷ split 44 rest
split-comma s rest h =
    ap (λ t. split 44 (s <> t)) (cons-append "," "" rest ∙ ap (String.◌∷◌ ",") (nil-append rest))
    ∙ split_at 44 s "," rest refl h

split-join :
    (ns : String) (list : List String)
    → Lacks 44 ns
    → All (Lacks 44) list
    → split 44 (join ns list) ≡ ns ∷ list
split-join ns [] h hs = split_whole 44 ns h
split-join ns (m ∷ list) h (k, hs) =
    split-comma ns (join m list) h ∙ ap (λ l. ns ∷ l) (split-join m list k hs)

non_blank_names : (list : List String) → All IsName list → non_blank list ≡ list
unfolding non_blank
non_blank_names [] h = refl
non_blank_names (ns ∷ list) ((c, t, b), h) =
    ground (arith, t, b, non_blank_names list h, ap (λ s. s == "") t)

commas : (list : List String) → All IsName list → All (Lacks 44) list
commas [] h = tt
commas (ns ∷ list) ((c, _, _), h) = (c, commas list h)

-- WATCH_NAMESPACE with names that are joined by commas, none of them empty, with a comma in it or
-- with space at its ends, is split into just these names.
pub split_namespaces-join :
    (ns : String) (list : List String)
    → IsName ns
    → All IsName list
    → split_namespaces (join ns list) ≡ ns ∷ list
unfolding split_namespaces
split_namespaces-join ns list h hs =
    ap non_blank (split-join ns list h.0 (commas list hs)) ∙ non_blank_names (ns ∷ list) (h, hs)
