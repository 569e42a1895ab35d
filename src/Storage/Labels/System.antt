-- ===== src/Storage/Labels/System.antt =====
-- filterSystemLabels keeps the labels that are the user's.
use helm_operator_plugins.Storage.Labels.{is_system_label, filter_system_labels}
use helm_operator_plugins.Prelude.{
  if◌then◌else◌, Dict, lookup, String, ◌≡◌, refl, none, [], ◌∷◌, arith, eq_iff,
}

-- A lookup in the filtered labels misses every system label and finds every other one as before.
pub lookup-filter_system_labels :
    (k : String) (lbs : Dict String)
    → lookup k (filter_system_labels lbs) ≡ (if is_system_label k then none else lookup k lbs)
unfolding filter_system_labels
lookup-filter_system_labels k [] = ground arith
lookup-filter_system_labels k ((j, v) ∷ lbs) =
    ground (arith, lookup-filter_system_labels k lbs, eq_iff j k)

pub filter_system_labels_again :
    (lbs : Dict String) → filter_system_labels (filter_system_labels lbs) ≡ filter_system_labels lbs
unfolding filter_system_labels
filter_system_labels_again [] = refl
filter_system_labels_again ((j, v) ∷ lbs) = ground (arith, filter_system_labels_again lbs)
