-- ===== src/Reconciler/Loop.antt =====
-- Reconcile and handleDeletion. The deferred `u.Apply` runs after the body, whatever it returned;
-- `now` is the time at which conditions are stamped.
pub mod Outcomes
pub mod Deletion
pub mod Failures
pub mod Completing
pub mod Installing
pub mod Upgrading
mod Updates
mod Acting
pub mod Data
mod Examples
pub use Updates.*
unfoldable pub use Acting.*
use helm_operator_plugins.Object.{Unstructured}
use helm_operator_plugins.Cluster.{Cluster}
use helm_operator_plugins.Controllerutil.{contains_finalizer, wait_for_deletion}
use helm_operator_plugins.Updater.{
  Updater, new, update_status, cancel_updates, ensure_condition, apply,
}
use helm_operator_plugins.Conditions.{initialized, deployed, paused}
use helm_operator_plugins.Status.{condition_true, condition_false}
use helm_operator_plugins.Client.Actions.{ActionInterface}
use helm_operator_plugins.Reconciler.{Reconciler, uninstall_finalizer}
use helm_operator_plugins.Reconciler.Actions.{ensure_deployed, do_uninstall}
use helm_operator_plugins.Exec.{Exec, pure, on_error}
use helm_operator_plugins.Release.{Release}
use helm_operator_plugins.Prelude.{
  if◌then◌else◌, is_some, Error, wrap, Result, ok, err, is_not_found, is_release_not_found,
  holds_for, ℕ, String, Bool, ◌&&◌, not, Option, none, some, [], ◌∷◌, ◌++◌,
}

module _ (k : Cluster) (r : Reconciler k.State) (now : ℕ) where
  open k use {State}

  abbrev pub first_error : Option Error → Option Error → Option Error
  first_error (some e) other_error = some e
  first_error none other_error = other_error

  -- The closure in handleDeletion: uninstall, then apply what the uninstall collected.
  unfoldable pub uninstall_and_apply :
      ActionInterface State → Unstructured → State → (Option Error × Unstructured) × State
  unfolding do_uninstall apply
  uninstall_and_apply client obj s =
      let ((failure, u), t) = do_uninstall k r client new obj s in
      let ((apply_error, obj'), v) = apply k now u obj t in
      ((first_error failure apply_error, obj'), v)

  abbrev pub error_of : Result (Unit {0}) × Unstructured → Option Error × Unstructured
  error_of (ok _, obj) = (none, obj)
  error_of (err e, obj) = (some e, obj)

  unfoldable pub wait : Unstructured → State → (Option Error × Unstructured) × State
  unfolding wait_for_deletion
  wait obj s = let (done, t) = wait_for_deletion k obj s in (error_of done, t)

  unfoldable pub handle_deletion :
      ActionInterface State → Unstructured → State → (Option Error × Unstructured) × State
  unfolding uninstall_and_apply wait contains_finalizer
  handle_deletion client obj s =
      if contains_finalizer obj.finalizers uninstall_finalizer
      then (let ((failure, obj'), t) = uninstall_and_apply client obj s in
          elim failure [ some e ↦ ((some e, obj'), t) | none ↦ wait obj' t ])
      else wait obj s

  unfoldable pub delete_release :
      ActionInterface State → Unstructured → Updater → State → Work × State
  unfolding handle_deletion
  delete_release client obj u s =
      let ((failure, obj'), t) = handle_deletion client obj s in
      elim failure [
        | some e ↦ (failing k r now obj' u e, t)
        | none ↦
            (record { obj = obj'; updater = cancel_updates u; requeue_after = 0; error = none }, t)
      ]

  -- What the early lookup of the release adds to the updates.
  unfoldable pub lookup_updates : Updater → Result Release → Updater
  unfolding ensure_deployed is_release_not_found
  lookup_updates u (ok rel) = ensure_deployed u rel
  lookup_updates u (err e) =
      if is_release_not_found e
      then update_status u (ensure_condition (deployed condition_false "" "") ∷ [])
      else u

  unfoldable pub with_client : ActionInterface State → Unstructured → Updater → State → Work × State
  unfolding lookup_updates delete_release reconcile_release
  with_client client obj u s =
      let (got, t) = client.get obj.name [] s in
      let u' =
        update_status (lookup_updates u got)
          (ensure_condition (initialized condition_true "" "") ∷ []) in
      if is_some obj.deletion_timestamp
      then delete_release client obj u' t
      else reconcile_release k r now client obj u' t

  unfoldable pub run_active : Unstructured → State → Work × State
  unfolding with_client
  run_active obj s =
      let u = update_status new (ensure_condition (paused condition_false "" "") ∷ []) in
      let (got, t) = r.action_client_for obj s in
      elim got [
        | err e ↦ (failing k r now obj (update_status u (no_client_updates (r.error_text e))) e, t)
        | ok client ↦ with_client client obj u t
      ]

  -- The body of Reconcile behind the deferred function. An error of the pause handler is logged.
  unfoldable pub run_body : Unstructured → State → Work × State
  unfolding run_active
  run_body obj s = elim r.pause_handler [
    | none ↦ run_active obj s
    | some handler ↦
        let ((is_paused, _), t) = handler obj s in
        if is_paused
        then (
          record {
            obj = obj;
            updater = update_status new paused_updates;
            requeue_after = 0;
            error = none;
          },
          t,
        )
        else run_active obj t
  ]

  -- The deferred function: an object that is gone by then is no error.
  unfoldable pub finish : Work × State → Reply × State
  unfolding apply is_not_found
  finish (w, s) =
      let ((apply_error, _), t) = apply k now w.updater w.obj s in
      elim w.error [
        | some e ↦ ((w.requeue_after, some e), t)
        | none ↦
            if holds_for is_not_found apply_error
            then ((w.requeue_after, none), t)
            else ((w.requeue_after, apply_error), t)
      ]

  abbrev pub needs_finalizer : Unstructured → Bool
  needs_finalizer obj =
      not (is_some obj.deletion_timestamp)
      && not (contains_finalizer obj.finalizers uninstall_finalizer)

  -- The safety measure before anything else: the finalizer is on the server first.
  unfoldable pub add_finalizer : Unstructured → Exec State Unstructured
  unfolding contains_finalizer
  add_finalizer obj =
      if needs_finalizer obj
      then on_error (wrap "failed to add uninstall finalizer")
          (k.update (record obj { finalizers = obj.finalizers ++ (uninstall_finalizer ∷ []) }))
      else pure obj

  unfoldable pub reconcile : String → String → State → Reply × State
  unfolding add_finalizer run_body finish is_not_found
  reconcile namespace name s =
      let (got, t) = k.get namespace name s in
      elim got [
        | err e ↦ if is_not_found e then ((0, none), t) else ((0, some e), t)
        | ok obj ↦
            let (added, v) = add_finalizer obj t in
            elim added [ err e ↦ ((0, some e), v) | ok obj' ↦ finish (run_body obj' v) ]
      ]
