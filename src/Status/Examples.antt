-- ===== src/Status/Examples.antt =====
-- The theorems on conditions at concrete data.
use helm_operator_plugins.Status.{Condition, Conditions, set_condition, get_condition, marshal_json}
use helm_operator_plugins.Status.Setting.{IsUnique}
use helm_operator_plugins.Status.Model.{
  Change, set, remove, run_changes, replay, run_changes-refines,
}
use helm_operator_plugins.Status.Sorted.{marshal_json-canonical}
use helm_operator_plugins.Prelude.{
  precedes, Result, ok, String, ◌≡◌, refl, ◌↔◌, Option, none, some, List, [], ◌∷◌,
}

abbrev deployed : Condition
deployed = record {
  type = "Deployed";
  status = "True";
  reason = "InstallSuccessful";
  message = "";
  last_transition_time = 5;
}

abbrev failed : Condition
failed = record {
  type = "ReleaseFailed";
  status = "False";
  reason = "";
  message = "";
  last_transition_time = 6;
}

abbrev both : Conditions
both = deployed ∷ failed ∷ []

both-IsUnique : IsUnique both
unfolding get_condition
both-IsUnique = (refl, (refl, tt))

keeps_time : get_condition (set_condition 9 both failed).1 "ReleaseFailed" ≡ some failed
unfolding set_condition get_condition
keeps_time = refl

abbrev changes : List Change
changes = set 9 failed ∷ remove "Deployed" ∷ []

run_changes-refines_example :
    IsUnique (run_changes changes both)
    × (get_condition (run_changes changes both) ≡ replay changes (get_condition both))
run_changes-refines_example = run_changes-refines changes both both-IsUnique

abbrev types_only : Option (List Condition) → Result String
types_only none = ok "null"
types_only (some []) = ok "[]"
types_only (some (c ∷ cs)) = ok c.type

abbrev turned : Conditions
turned = failed ∷ deployed ∷ []

turned-IsUnique : IsUnique turned
unfolding get_condition
turned-IsUnique = (refl, (refl, tt))

sorts : marshal_json types_only (some turned) ≡ (ok "Deployed", some both)
unfolding marshal_json precedes
sorts = refl

marshal_json-canonical_example :
    (left : Conditions) × ((marshal_json types_only (some both)).1 ≡ some left)
    × (get_condition left ≡ get_condition both)
    × ((get_condition both ≡ get_condition turned)
        ↔ (marshal_json types_only (some both) ≡ marshal_json types_only (some turned)))
marshal_json-canonical_example =
    marshal_json-canonical types_only both turned both-IsUnique turned-IsUnique
