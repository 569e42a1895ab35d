-- ===== src/Status/Removing.antt =====
-- What RemoveCondition leaves, and the three queries by type.
use helm_operator_plugins.Prelude.{
  ◌≡◌, refl, Bool, true, false, Option, none, some, [], ◌∷◌, String, arith, eq_iff, ◌==◌,
  if◌then◌else◌, is_some,
}
use helm_operator_plugins.Status.{
  Condition, Conditions, get_condition, remove_condition, is_true, is_false, is_unknown,
  is_true_for, is_false_for, is_unknown_for,
}
use helm_operator_plugins.Status.Setting.{IsUnique}

get_condition-remove_condition :
    (cs : Conditions) (t u : String)
    → IsUnique cs
    → get_condition (remove_condition cs t).1 u ≡ (if t == u then none else get_condition cs u)
unfolding get_condition remove_condition
get_condition-remove_condition [] t u h = ground arith
get_condition-remove_condition (c ∷ cs) t u (fresh, h) =
    ground
      (arith, get_condition-remove_condition cs t u h, eq_iff c.type t, eq_iff c.type u, eq_iff t u)

remove_condition-found :
    (cs : Conditions) (t : String) → (remove_condition cs t).0 ≡ is_some (get_condition cs t)
unfolding get_condition remove_condition
remove_condition-found [] t = refl
remove_condition-found (c ∷ cs) t = ground (arith, remove_condition-found cs t)

-- In conditions with one entry for each type, RemoveCondition says whether the type was there,
-- leaves no condition of that type, and leaves those of the other types.
pub remove_condition_lem :
    (cs : Conditions) (t u : String)
    → IsUnique cs
    → ((remove_condition cs t).0 ≡ is_some (get_condition cs t))
      × (get_condition (remove_condition cs t).1 u ≡ (if t == u then none else get_condition cs u))
remove_condition_lem cs t u h =
    (remove_condition-found cs t, get_condition-remove_condition cs t u h)

-- The answer of a query when no condition of the type is there, and when there is one.
abbrev pub answer : Bool → (Condition → Bool) → Option Condition → Bool
answer missing test none = missing
answer missing test (some c) = test c

is_true_for_lem :
    (cs : Conditions) (t : String) → is_true_for cs t ≡ answer false is_true (get_condition cs t)
unfolding is_true_for get_condition
is_true_for_lem [] t = refl
is_true_for_lem (c ∷ cs) t = ground (arith, is_true_for_lem cs t)

is_false_for_lem :
    (cs : Conditions) (t : String) → is_false_for cs t ≡ answer false is_false (get_condition cs t)
unfolding is_false_for get_condition
is_false_for_lem [] t = refl
is_false_for_lem (c ∷ cs) t = ground (arith, is_false_for_lem cs t)

is_unknown_for_lem :
    (cs : Conditions) (t : String)
    → is_unknown_for cs t ≡ answer true is_unknown (get_condition cs t)
unfolding is_unknown_for get_condition
is_unknown_for_lem [] t = refl
is_unknown_for_lem (c ∷ cs) t = ground (arith, is_unknown_for_lem cs t)

-- IsTrueFor, IsFalseFor and IsUnknownFor ask the condition that GetCondition finds; where there
-- is none the answers are false, false and true.
pub queries-get_condition :
    (cs : Conditions) (t : String)
    → (is_true_for cs t ≡ answer false is_true (get_condition cs t))
      × (is_false_for cs t ≡ answer false is_false (get_condition cs t))
      × (is_unknown_for cs t ≡ answer true is_unknown (get_condition cs t))
queries-get_condition cs t = (is_true_for_lem cs t, is_false_for_lem cs t, is_unknown_for_lem cs t)
