-- ===== src/Status/Setting.antt =====
-- What SetCondition leaves in the conditions, and what its result says.
use helm_operator_plugins.Status.{
  Condition, Conditions, differs, replacement, set_stamped, set_condition, get_condition, set_all,
  new_conditions,
}
use helm_operator_plugins.Prelude.{
  if◌then◌else◌, ℕ, String, ◌≡◌, refl, ap, ◌↔◌, true, false, Option, none, some, List, [], ◌∷◌,
  arith, ◌==◌, eq_iff,
}

abbrev pub stamp : ℕ → Condition → Condition
stamp now new = record new { last_transition_time = now }

-- What stands for the type of `new` afterwards, from what stood there before: the new condition,
-- with the time of the one before if that had the same status.
abbrev pub settled : Option Condition → Condition → Condition
settled none new = new
settled (some c) new =
    if c.status == new.status
    then record {
      type = new.type;
      status = new.status;
      reason = new.reason;
      message = new.message;
      last_transition_time = c.last_transition_time;
    }
    else new

get_condition-set_stamped :
    (cs : Conditions) (new : Condition) (t : String)
    → get_condition (set_stamped cs new).1 t ≡ (
        if new.type == t
        then some (settled (get_condition cs new.type) new)
        else get_condition cs t)
unfolding get_condition set_stamped
get_condition-set_stamped [] new t = refl
get_condition-set_stamped (c ∷ cs) new t = ground (
  arith,
  eq_iff c.type new.type,
  eq_iff c.type t,
  eq_iff new.type t,
  get_condition-set_stamped cs new t,
)

-- After SetCondition the condition of the type that was set is the new one, with the old
-- transition time if the type was there with the same status and with the current time if not;
-- the condition of every other type is what it was.
pub get_condition-set_condition :
    (now : ℕ) (cs : Conditions) (new : Condition) (t : String)
    → get_condition (set_condition now cs new).1 t ≡ (
        if new.type == t
        then some (settled (get_condition cs new.type) (stamp now new))
        else get_condition cs t)
unfolding set_condition
get_condition-set_condition now cs new t = get_condition-set_stamped cs (stamp now new) t

length-set_stamped_new :
    (cs : Conditions) (new : Condition)
    → get_condition cs new.type ≡ none
    → (set_stamped cs new).0 ≡ true
unfolding get_condition set_stamped
length-set_stamped_new [] new h = refl
length-set_stamped_new (c ∷ cs) new h = ground (arith, length-set_stamped_new cs new)

set_stamped_same :
    (cs : Conditions) (new : Condition)
    → (set_stamped cs new).0 ≡ false
    → (set_stamped cs new).1 ≡ cs
unfolding set_stamped
set_stamped_same [] new h = ground arith
set_stamped_same (c ∷ cs) new h = ground (
  arith,
  set_stamped_same cs new,
  eq_iff c.type new.type,
  eq_iff c.status new.status,
  eq_iff c.reason new.reason,
  eq_iff c.message new.message,
)

differs_of_changed : (c new : Condition) → replacement c new ≡ c → differs c new ≡ false
differs_of_changed c new h = ground (
  arith,
  eq_iff c.status new.status,
  eq_iff c.reason new.reason,
  eq_iff c.message new.message,
  ap (λ (d : Condition). d.status) h,
  ap (λ (d : Condition). d.reason) h,
  ap (λ (d : Condition). d.message) h,
)

same_set_stamped :
    (cs : Conditions) (new : Condition)
    → (set_stamped cs new).1 ≡ cs
    → (set_stamped cs new).0 ≡ false
unfolding set_stamped
same_set_stamped [] new h = ground arith
same_set_stamped (c ∷ cs) new h = ground (arith, same_set_stamped cs new, differs_of_changed c new)

-- SetCondition returns false exactly when it leaves the conditions, their times included, as they
-- were.
pub set_condition_unchanged :
    (now : ℕ) (cs : Conditions) (new : Condition)
    → ((set_condition now cs new).0 ≡ false) ↔ ((set_condition now cs new).1 ≡ cs)
unfolding set_condition
set_condition_unchanged now cs new =
    (set_stamped_same cs (stamp now new), same_set_stamped cs (stamp now new))

-- At most one condition has a given type.
abbrev pub IsUnique : Conditions → Type 0
IsUnique [] = Unit
IsUnique (c ∷ cs) = (get_condition cs c.type ≡ none) × IsUnique cs

set_stamped-IsUnique :
    (cs : Conditions) (new : Condition) → IsUnique cs → IsUnique (set_stamped cs new).1
unfolding get_condition set_stamped
set_stamped-IsUnique [] new u = (refl, tt)
set_stamped-IsUnique (c ∷ cs) new (fresh, u) = ground (
  arith,
  set_stamped-IsUnique cs new u,
  get_condition-set_stamped cs new c.type,
  eq_iff c.type new.type,
  eq_iff new.type c.type,
)

-- SetCondition keeps at most one condition for each type.
pub set_condition-IsUnique :
    (now : ℕ) (cs : Conditions) (new : Condition)
    → IsUnique cs
    → IsUnique (set_condition now cs new).1
unfolding set_condition
set_condition-IsUnique now cs new u = set_stamped-IsUnique cs (stamp now new) u

set_all-IsUnique :
    (cs : Conditions) (more : List (ℕ × Condition)) → IsUnique cs → IsUnique (set_all cs more)
unfolding set_all
set_all-IsUnique cs [] u = u
set_all-IsUnique cs ((now, c) ∷ more) u =
    set_all-IsUnique (set_condition now cs c).1 more (set_condition-IsUnique now cs c u)

-- NewConditions builds a list with at most one condition for each type, from any conditions.
pub new_conditions-IsUnique : (conds : List (ℕ × Condition)) → IsUnique (new_conditions conds)
unfolding new_conditions
new_conditions-IsUnique conds = set_all-IsUnique [] conds tt
