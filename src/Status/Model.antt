-- ===== src/Status/Model.antt =====
-- Conditions as a map from types to conditions, over any sequence of changes.
use helm_operator_plugins.Status.{
  Condition, Conditions, set_condition, get_condition, remove_condition,
}
use helm_operator_plugins.Status.Setting.{
  stamp, settled, get_condition-set_condition, IsUnique, set_condition-IsUnique,
}
use helm_operator_plugins.Status.Removing.{remove_condition_lem}
use helm_operator_plugins.Prelude.{
  if◌then◌else◌, ℕ, String, ◌≡◌, refl, ap, fun_ext, ◌∙◌, Option, none, some, List, [], ◌∷◌, arith,
  ◌==◌, eq_iff,
}

pub data Change : Type 0 where
  set : ℕ → Condition → Change
  remove : String → Change

unfoldable pub run_changes : List Change → Conditions → Conditions
run_changes [] cs = cs
run_changes (set now new ∷ more) cs = run_changes more (set_condition now cs new).1
run_changes (remove t ∷ more) cs = run_changes more (remove_condition cs t).1

-- The same changes, on a function.
unfoldable pub replay : List Change → (String → Option Condition) → String → Option Condition
replay [] f = f
replay (set now new ∷ more) f =
    replay more (λ t. if new.type == t then some (settled (f new.type) (stamp now new)) else f t)
replay (remove u ∷ more) f = replay more (λ t. if u == t then none else f t)

get_condition-remove_none :
    (cs : Conditions) (t u : String)
    → get_condition cs u ≡ none
    → get_condition (remove_condition cs t).1 u ≡ none
unfolding get_condition remove_condition
get_condition-remove_none [] t u h = h
get_condition-remove_none (c ∷ cs) t u h =
    ground (arith, get_condition-remove_none cs t u, eq_iff c.type t, eq_iff c.type u)

remove_condition-IsUnique :
    (cs : Conditions) (t : String) → IsUnique cs → IsUnique (remove_condition cs t).1
unfolding get_condition remove_condition
remove_condition-IsUnique [] t u = tt
remove_condition-IsUnique (c ∷ cs) t (fresh, u) =
    ground (arith, remove_condition-IsUnique cs t u, get_condition-remove_none cs t c.type fresh)

-- From conditions with one entry for each type, any sequence of SetCondition and RemoveCondition
-- leaves one entry for each type, and GetCondition then answers as the map does after the same
-- changes: set puts the condition, with the time of the one before if the status is the same, and
-- remove takes it away.
pub run_changes-refines :
    (more : List Change) (cs : Conditions)
    → IsUnique cs
    → IsUnique (run_changes more cs)
      × (get_condition (run_changes more cs) ≡ replay more (get_condition cs))
unfolding run_changes replay
run_changes-refines [] cs u = (u, refl)
run_changes-refines (set now new ∷ more) cs u =
    let (v, e) =
      run_changes-refines more (set_condition now cs new).1 (set_condition-IsUnique now cs new u) in
    (v, e ∙ ap (replay more) (fun_ext (get_condition-set_condition now cs new)))
run_changes-refines (remove t ∷ more) cs u =
    let (v, e) =
      run_changes-refines more (remove_condition cs t).1 (remove_condition-IsUnique cs t u) in
    (v, e ∙ ap (replay more) (fun_ext (λ x. (remove_condition_lem cs t x u).1)))
