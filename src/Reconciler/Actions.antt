-- ===== src/Reconciler/Actions.antt =====
-- The reconciler's steps: release state, install, upgrade, reconcile and uninstall. Each collects
-- status updates in the updater. Events, logs and printed diffs are left out.
pub mod State
use helm_operator_plugins.Object.{Values, Unstructured}
use helm_operator_plugins.Cluster.{Cluster}
use helm_operator_plugins.Updater.{
  Updater, update, update_status, ensure_condition, ensure_deployed_release,
  remove_deployed_release, remove_finalizer,
}
use helm_operator_plugins.Conditions.{
  reason_install_successful, reason_upgrade_successful, reason_uninstall_successful,
  reason_install_error, reason_upgrade_error, reason_reconcile_error, reason_uninstall_error,
  deployed, release_failed, irreconcilable,
}
use helm_operator_plugins.Client.{OptionFor}
use helm_operator_plugins.Client.Options.{UpgradeAction}
use helm_operator_plugins.SpecValues.{apply_overrides}
use helm_operator_plugins.Reconciler.{
  Reconciler, uninstall_finalizer, ReleaseState, needs_install, needs_upgrade, unchanged,
  annotation_options,
}
use helm_operator_plugins.Status.{condition_true, condition_false}
use helm_operator_plugins.Client.Actions.{ActionInterface}
use helm_operator_plugins.Exec.{Exec}
use helm_operator_plugins.Release.{Release, status_failed, status_superseded}
use helm_operator_plugins.Prelude.{
  ltb, if◌then◌else◌, Error, wrap, panic, Result, ok, err, is_release_not_found, ℕ, String, true,
  ◌||◌, not, Option, none, some, List, [], ◌∷◌, ◌++◌, ◌==◌,
}

-- An action that returns no error has returned a release; to read through nil is a panic.
abbrev pub released : Option Release × Option Error → Result Release
released (rel, some e) = err e
released (some rel, none) = ok rel
released (none, none) = err (panic "nil pointer dereference")

unfoldable pub ensure_deployed : Updater → Release → Updater
ensure_deployed u rel =
    let reason =
      if ltb 1 rel.version then reason_upgrade_successful else reason_install_successful in
    let standard =
      if ltb 1 rel.version
      then "release was successfully upgraded"
      else "release was successfully installed" in
    let shown : String = elim rel.info [
      | none ↦ standard
      | some info ↦ if info.notes == "" then standard else info.notes
    ] in
    update_status u (
      ensure_condition (deployed condition_true reason shown)
      ∷ ensure_deployed_release (some rel)
      ∷ [])

-- The dry run asks the server and changes nothing there.
abbrev pub dry_run_option : OptionFor UpgradeAction
dry_run_option u = ok (record u { dry_run = true; dry_run_option = "server" })

abbrev pub max_history_option : ℕ → OptionFor UpgradeAction
max_history_option n u = ok (record u { max_history = n })

module _ (k : Cluster) (r : Reconciler k.State) where
  open k use {State}

  unfoldable pub upgrade_options : Unstructured → List (OptionFor UpgradeAction)
  unfolding annotation_options
  upgrade_options obj =
      (if ltb 0 r.max_release_history then max_history_option r.max_release_history ∷ [] else [])
      ++ annotation_options r.upgrade_annotations obj.annotations

  -- Whether the release that is there has to be upgraded to the one of the dry run.
  unfoldable pub compare_releases : Release → Release → Result ReleaseState
  compare_releases current spec =
      if not (spec.manifest == current.manifest) then ok needs_upgrade else elim current.info [
        | none ↦ err (panic "nil pointer dereference")
        | some info ↦
            if info.status == status_failed || info.status == status_superseded
            then ok needs_upgrade
            else ok unchanged
      ]

  unfoldable pub get_release_state :
      ActionInterface State → Unstructured → Values → Exec State (Option Release × ReleaseState)
  unfolding upgrade_options compare_releases is_release_not_found
  get_release_state client obj vals s =
      let (got, t) = client.get obj.name [] s in
      elim got [
        | err e ↦ if is_release_not_found e then (ok (none, needs_install), t) else (err e, t)
        | ok current ↦
            let (attempt, u) =
              client.upgrade obj.name obj.namespace r.chrt vals
                (upgrade_options obj ++ (dry_run_option ∷ [])) t in
            elim (released attempt) [
              | err e ↦ (err e, u)
              | ok spec ↦ elim (compare_releases current spec) [
                | err e ↦ (err e, u)
                | ok state ↦ (ok (some current, state), u)
              ]
            ]
      ]

  -- The status updates after a failed action.
  unfoldable pub report_failure : Updater → String → Error → Updater
  report_failure u reason e = update_status u (
      ensure_condition (irreconcilable condition_true reason_reconcile_error (r.error_text e))
      ∷ ensure_condition (release_failed condition_true reason (r.error_text e))
      ∷ [])

  unfoldable pub do_install :
      ActionInterface State
      → Updater
      → Unstructured
      → Values
      → State
      → (Result Release × Updater) × State
  unfolding annotation_options report_failure
  do_install client u obj vals s =
      let (attempt, t) =
        client.install obj.name obj.namespace r.chrt vals
          (annotation_options r.install_annotations obj.annotations) s in
      elim (attempt.1) [
        | some e ↦ ((err e, report_failure u reason_install_error e), t)
        | none ↦ ((released attempt, u), t)
      ]

  unfoldable pub do_upgrade :
      ActionInterface State
      → Updater
      → Unstructured
      → Values
      → State
      → (Result Release × Updater) × State
  unfolding upgrade_options report_failure
  do_upgrade client u obj vals s =
      let (got, t) = client.get obj.name [] s in
      elim got [
        | err e ↦ ((err (wrap "could not get the current Helm Release" e), u), t)
        | ok current ↦
            let (attempt, v) =
              client.upgrade obj.name obj.namespace r.chrt vals (upgrade_options obj) t in
            elim (attempt.1) [
              | some e ↦ ((err e, report_failure u reason_upgrade_error e), v)
              | none ↦ ((released attempt, u), v)
            ]
      ]

  unfoldable pub do_reconcile :
      ActionInterface State → Updater → Release → State → (Option Error × Updater) × State
  do_reconcile client u rel s =
      let u' = update_status u (ensure_condition (release_failed condition_false "" "") ∷ []) in
      let (done, t) = client.reconcile rel s in
      elim done [
        | ok _ ↦ ((none, u'), t)
        | err e ↦ (
          (
            some e,
            update_status u' (
                ensure_condition
                  (irreconcilable condition_true reason_reconcile_error (r.error_text e))
                ∷ []),
          ),
          t,
        )
      ]

  -- What doUninstall leaves for the updater once the release is gone.
  unfoldable pub report_uninstalled : Updater → Updater
  report_uninstalled u = update_status (update u (remove_finalizer k uninstall_finalizer ∷ [])) (
      ensure_condition (release_failed condition_false "" "")
      ∷ ensure_condition (deployed condition_false reason_uninstall_successful "")
      ∷ remove_deployed_release
      ∷ [])

  unfoldable pub do_uninstall :
      ActionInterface State → Updater → Unstructured → State → (Option Error × Updater) × State
  unfolding annotation_options report_failure report_uninstalled is_release_not_found
  do_uninstall client u obj s =
      let (gone, t) =
        client.uninstall obj.name (annotation_options r.uninstall_annotations obj.annotations) s in
      elim gone [
        | ok _ ↦ ((none, report_uninstalled u), t)
        | err e ↦
            if is_release_not_found e
            then ((none, report_uninstalled u), t)
            else ((some e, report_failure u reason_uninstall_error e), t)
      ]

  unfoldable pub get_values : Unstructured → Result Values × Unstructured
  unfolding apply_overrides
  get_values obj =
      let (failure, changed) = apply_overrides r.expand_env r.parse_into r.override_values obj in
      elim failure [
        | some e ↦ (err e, changed)
        | none ↦ elim (r.translate changed) [
          | err e ↦ (err e, changed)
          | ok vals ↦ (r.coalesce_values r.chrt (r.map_values vals), changed)
        ]
      ]
