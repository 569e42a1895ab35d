-- ===== src/Namespaces/Examples.antt =====
-- Tests, and the theorem at two names.
use helm_operator_plugins.Namespaces.{trim_space, split_namespaces}
use helm_operator_plugins.Namespaces.Joined.{split_namespaces-join}
use helm_operator_plugins.Prelude.{◌≡◌, refl, [], ◌∷◌, arith}

blank_parts : split_namespaces " a ,,b\t," ≡ "a" ∷ "b" ∷ []
unfolding split_namespaces
blank_parts = refl

nothing_set : split_namespaces "" ≡ []
unfolding split_namespaces
nothing_set = refl

trimmed_a : trim_space "team-a" ≡ "team-a"
unfolding trim_space
trimmed_a = refl

trimmed_b : trim_space "b" ≡ "b"
unfolding trim_space
trimmed_b = refl

split_namespaces-join_example : split_namespaces "team-a,b" ≡ "team-a" ∷ "b" ∷ []
split_namespaces-join_example =
    split_namespaces-join "team-a" ("b" ∷ []) (ground arith, trimmed_a, refl)
      ((ground arith, trimmed_b, refl), tt)
