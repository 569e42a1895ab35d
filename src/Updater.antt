-- ===== src/Updater.antt =====
-- pkg/reconciler/internal/updater/updater.go: changes to a custom resource that are collected and
-- applied together. `now` is the time at which the changes are applied; the client is the cluster's.
mod Examples
pub mod Applying
pub mod Showing
pub mod Keeping
use helm_operator_plugins.Status.{condition_unknown, Condition, set_condition}
use helm_operator_plugins.Object.{
  HelmAppRelease, HelmAppStatus, StatusField, absent, pointer, typed, fields, unknown, Unstructured,
}
use helm_operator_plugins.Cluster.{Cluster}
use helm_operator_plugins.Controllerutil.{contains_finalizer}
use helm_operator_plugins.Exec.{Exec}
use helm_operator_plugins.Release.{Release}
use helm_operator_plugins.Prelude.{
  if◌then◌else◌, Error, panic, Result, ok, err, is_not_found, is_conflict, ℕ, String, Bool, true,
  false, ◌&&◌, ◌||◌, not, Option, none, some, List, [], ◌∷◌, ◌++◌, ◌==◌,
}

-- A function that changes the object says whether it did.
abbrev pub UpdateFunc : Type 0
UpdateFunc = Unstructured → Bool × Unstructured

-- The clock that SetCondition reads is the first argument.
abbrev pub UpdateStatusFunc : Type 0
UpdateStatusFunc = ℕ → HelmAppStatus → Bool × HelmAppStatus

pub record Updater : Type 0 where
  pub is_canceled : Bool
  pub update_funcs : List UpdateFunc
  pub update_status_funcs : List UpdateStatusFunc

abbrev pub new : Updater
new = record { is_canceled = false; update_funcs = []; update_status_funcs = [] }

abbrev pub update : Updater → List UpdateFunc → Updater
update u fs = record u { update_funcs = u.update_funcs ++ fs }

abbrev pub update_status : Updater → List UpdateStatusFunc → Updater
update_status u fs = record u { update_status_funcs = u.update_status_funcs ++ fs }

abbrev pub cancel_updates : Updater → Updater
cancel_updates u = record u { is_canceled = true }

unfoldable pub is_retryable_update_error : Error → Bool
unfolding is_conflict is_not_found
is_retryable_update_error e = not (is_conflict e) && not (is_not_found e)

unfoldable pub ensure_condition : Condition → UpdateStatusFunc
unfolding set_condition
ensure_condition condition now status =
    let (changed, conditions) = set_condition now status.conditions condition in
    (changed, record status { conditions = conditions })

-- The literal of EnsureConditionUnknown
abbrev pub unknown_condition : String → Condition
unknown_condition t = record {
  type = t;
  status = condition_unknown;
  reason = "";
  message = "";
  last_transition_time = 0;
}

unfoldable pub ensure_condition_unknown : String → UpdateStatusFunc
unfolding set_condition
ensure_condition_unknown t now status =
    let (changed, conditions) = set_condition now status.conditions (unknown_condition t) in
    (changed, record status { conditions = conditions })

unfoldable pub helm_app_release_for : Option Release → Option HelmAppRelease
helm_app_release_for none = none
helm_app_release_for (some rel) = some (record { name = rel.name; manifest = rel.manifest })

-- `*a == *b` on helmAppRelease
abbrev same_release : HelmAppRelease → HelmAppRelease → Bool
same_release a b = a.name == b.name && a.manifest == b.manifest

-- The two tests of EnsureDeployedRelease by which it leaves the status alone.
abbrev pub is_deployed : Option HelmAppRelease → Option HelmAppRelease → Bool
is_deployed none none = true
is_deployed (some a) (some b) = same_release a b
is_deployed _ _ = false

unfoldable pub ensure_deployed_release : Option Release → UpdateStatusFunc
unfolding helm_app_release_for
ensure_deployed_release rel now status =
    let new_rel = helm_app_release_for rel in
    if is_deployed status.deployed_release new_rel
    then (false, status)
    else (true, record status { deployed_release = new_rel })

unfoldable pub remove_deployed_release : UpdateStatusFunc
unfolding ensure_deployed_release
remove_deployed_release = ensure_deployed_release none

abbrev empty_status : HelmAppStatus
empty_status = record { conditions = []; deployed_release = none }

module _ (k : Cluster) where
  open k use {State}

  unfoldable pub remove_finalizer : String → UpdateFunc
  unfolding contains_finalizer
  remove_finalizer finalizer obj =
      if contains_finalizer obj.finalizers finalizer
      then (true, record obj { finalizers = k.remove_finalizer obj.finalizers finalizer })
      else (false, obj)

  -- The cases of `statusFor` for an object with content.
  abbrev pub status_in : StatusField → HelmAppStatus
  status_in absent = empty_status
  status_in (pointer s) = s
  status_in (typed s) = s
  status_in (fields m) = k.from_unstructured m
  status_in unknown = empty_status

  unfoldable pub status_for : Option Unstructured → Option HelmAppStatus
  status_for none = none
  status_for (some obj) = some (status_in obj.status)

  -- A status that the object holds by pointer changes with the one that `statusFor` returned.
  abbrev pub write_through : StatusField → HelmAppStatus → StatusField
  write_through (pointer _) st = pointer st
  write_through held st = held

  unfoldable pub retry_on_retryable_update_error : Exec State Unstructured → Exec State Unstructured
  unfolding is_retryable_update_error
  retry_on_retryable_update_error f = k.retry is_retryable_update_error f

  -- The loop over the status functions, none of which is left out.
  unfoldable pub run_status_funcs :
      List UpdateStatusFunc → ℕ → Bool → HelmAppStatus → Bool × HelmAppStatus
  run_status_funcs [] now needs st = (needs, st)
  run_status_funcs (f ∷ fs) now needs st =
      run_status_funcs fs now ((f now st).0 || needs) (f now st).1

  unfoldable pub run_funcs : List UpdateFunc → Bool → Unstructured → Bool × Unstructured
  run_funcs [] needs obj = (needs, obj)
  run_funcs (f ∷ fs) needs obj = run_funcs fs ((f obj).0 || needs) (f obj).1

  -- The error of an update, and the object as the update left it.
  abbrev pub outcome : Unstructured → Result Unstructured → Option Error × Unstructured
  outcome obj (ok updated) = (none, updated)
  outcome obj (err e) = (some e, obj)

  -- The second half of `Apply`.
  unfoldable pub apply_updates :
      Updater → Unstructured → State → (Option Error × Unstructured) × State
  unfolding run_funcs retry_on_retryable_update_error
  apply_updates u obj s =
      let (needs, changed) = run_funcs u.update_funcs false obj in
      if needs
      then (let (r, t) = retry_on_retryable_update_error (k.update changed) s in
          (outcome changed r, t))
      else ((none, changed), s)

  -- A nil object makes the first status function panic.
  abbrev status_or_panic : Option HelmAppStatus → Result HelmAppStatus
  status_or_panic none = err (panic "nil pointer dereference")
  status_or_panic (some st) = ok st

  unfoldable pub apply : ℕ → Updater → Unstructured → State → (Option Error × Unstructured) × State
  unfolding apply_updates run_status_funcs status_for
  apply now u obj s =
      if u.is_canceled then ((none, obj), s) else (elim (status_or_panic (status_for (some obj))) [
        | err e ↦ ((some e, obj), s)
        | ok st ↦
            let (needs, after) = run_status_funcs u.update_status_funcs now false st in
            let touched = record obj { status = write_through obj.status after } in
            if needs
            then (elim (k.to_unstructured after) [
              | err e ↦ ((some e, touched), s)
              | ok m ↦
                  let written = record touched { status = fields m } in
                  let (r, t) = retry_on_retryable_update_error (k.update_status written) s in
                  elim r [
                    | err e ↦ ((some e, written), t)
                    | ok answered ↦ apply_updates u answered t
                  ]
            ])
            else apply_updates u touched s
      ])
