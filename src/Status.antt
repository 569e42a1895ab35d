-- ===== src/Status.antt =====
-- pkg/internal/status/conditions.go: the conditions of a status, a list with at most one condition
-- of each type. The clock is the argument `now`.
pub mod Setting
pub mod Removing
pub mod Model
pub mod Sorted
mod Examples
use helm_operator_plugins.Prelude.{
  ℕ, String, Bool, true, false, ◌||◌, not, Option, none, some, List, [], ◌∷◌, ◌==◌, if◌then◌else◌,
  precedes, Result,
}

-- corev1.ConditionStatus
abbrev pub condition_true : String
condition_true = "True"

abbrev pub condition_false : String
condition_false = "False"

abbrev pub condition_unknown : String
condition_unknown = "Unknown"

pub record Condition : Type 0 where
  pub type : String
  pub status : String
  pub reason : String
  pub message : String
  pub last_transition_time : ℕ

unfoldable pub is_true : Condition → Bool
is_true c = c.status == condition_true

unfoldable pub is_false : Condition → Bool
is_false c = c.status == condition_false

unfoldable pub is_unknown : Condition → Bool
is_unknown c = c.status == condition_unknown

abbrev pub Conditions : Type 0
Conditions = List Condition

unfoldable pub is_true_for : Conditions → String → Bool
unfolding is_true
is_true_for [] t = false
is_true_for (c ∷ cs) t = if c.type == t then is_true c else is_true_for cs t

unfoldable pub is_false_for : Conditions → String → Bool
unfolding is_false
is_false_for [] t = false
is_false_for (c ∷ cs) t = if c.type == t then is_false c else is_false_for cs t

unfoldable pub is_unknown_for : Conditions → String → Bool
unfolding is_unknown
is_unknown_for [] t = true
is_unknown_for (c ∷ cs) t = if c.type == t then is_unknown c else is_unknown_for cs t

-- The `changed` of `SetCondition`.
abbrev pub differs : Condition → Condition → Bool
differs c d =
    not (c.status == d.status) || not (c.reason == d.reason) || not (c.message == d.message)

-- The condition that takes the place of `c`: its time moves on only with its status.
abbrev pub replacement : Condition → Condition → Condition
replacement c new =
    if c.status == new.status
    then record new { last_transition_time = c.last_transition_time }
    else new

-- The loop of `SetCondition`, over a condition that bears the current time.
unfoldable pub set_stamped : Conditions → Condition → Bool × Conditions
set_stamped [] new = (true, new ∷ [])
set_stamped (c ∷ cs) new =
    let (changed, rest) = set_stamped cs new in
    if c.type == new.type then (differs c new, replacement c new ∷ cs) else (changed, c ∷ rest)

unfoldable pub set_condition : ℕ → Conditions → Condition → Bool × Conditions
unfolding set_stamped
set_condition now cs new = set_stamped cs (record new { last_transition_time = now })

unfoldable pub get_condition : Conditions → String → Option Condition
get_condition [] t = none
get_condition (c ∷ cs) t = if c.type == t then some c else get_condition cs t

unfoldable pub remove_condition : Conditions → String → Bool × Conditions
remove_condition [] t = (false, [])
remove_condition (c ∷ cs) t =
    let (removed, rest) = remove_condition cs t in
    if c.type == t then (true, cs) else (removed, c ∷ rest)

-- The loop of `NewConditions`; the clock is read once for each condition.
unfoldable pub set_all : Conditions → List (ℕ × Condition) → Conditions
unfolding set_condition
set_all cs [] = cs
set_all cs ((now, c) ∷ more) = set_all (set_condition now cs c).1 more

unfoldable pub new_conditions : List (ℕ × Condition) → Conditions
unfolding set_all
new_conditions conds = set_all [] conds

-- sort.Slice by the type: by insertion, as Go does for short slices.
unfoldable pub insert_by_type : Condition → Conditions → Conditions
insert_by_type c [] = c ∷ []
insert_by_type c (d ∷ ds) =
    let rest = insert_by_type c ds in if precedes d.type c.type then d ∷ rest else c ∷ d ∷ ds

unfoldable pub sort_by_type : Conditions → Conditions
unfolding insert_by_type
sort_by_type [] = []
sort_by_type (c ∷ cs) = insert_by_type c (sort_by_type cs)

-- The result, and the conditions of the caller, which share their array with those that are
-- sorted; `none` is the nil slice, which is no empty list. `marshal` is json.Marshal.
unfoldable pub marshal_json :
    (Option (List Condition) → Result String)
    → Option Conditions
    → Result String × Option Conditions
unfolding sort_by_type
marshal_json marshal none = (marshal none, none)
marshal_json marshal (some conditions) =
    (marshal (some (sort_by_type conditions)), some (sort_by_type conditions))
