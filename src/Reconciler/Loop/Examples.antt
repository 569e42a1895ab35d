-- ===== src/Reconciler/Loop/Examples.antt =====
-- The reconciler's theorems at concrete data: a cluster with one object, over a counter of calls.
use helm_operator_plugins.Reconciler.Loop.Data.{
  resource, cluster, rel, client, handler, settings, blank, bare, upgrade_defaults, open_cluster,
  held, gone_client,
}
use helm_operator_plugins.Object.{end, Unstructured}
use helm_operator_plugins.Controllerutil.{contains_finalizer}
use helm_operator_plugins.Updater.Showing.{shown, after}
use helm_operator_plugins.Conditions.{
  type_initialized, type_deployed, type_release_failed, type_irreconcilable, type_paused,
}
use helm_operator_plugins.Status.{condition_true, condition_unknown}
use helm_operator_plugins.Client.{apply_options}
use helm_operator_plugins.Reconciler.{uninstall_finalizer, unchanged}
use helm_operator_plugins.Reconciler.Actions.{dry_run_option, upgrade_options, get_release_state}
use helm_operator_plugins.Reconciler.Actions.State.{release_unchanged}
use helm_operator_plugins.Reconciler.Loop.{wait, handle_deletion, run_body}
use helm_operator_plugins.Release.{status_failed, status_superseded}
use helm_operator_plugins.Prelude.{
  release_not_found, ok, err, is_release_not_found, ℕ, ◌+◌, String, ◌≡◌, refl, ◌≢◌, ◌↔◌, inr, true,
  none, some, [], ◌∷◌, ◌++◌,
}
use helm_operator_plugins.Reconciler.Loop.Outcomes.{run_body_paused}
use helm_operator_plugins.Reconciler.Loop.Completing.{Accepts, deletion_completes}

run_body_paused_example :
    let (w, left_state) = run_body cluster settings 5 resource 0 in
    let left = after cluster w.updater.update_status_funcs 5 blank in
    (left_state ≡ 0)
    × (w.error ≡ none)
    × (shown left type_paused ≡ some condition_true)
    × (shown left type_irreconcilable ≡ some condition_unknown)
    × (shown left type_deployed ≡ some condition_unknown)
    × (shown left type_initialized ≡ some condition_unknown)
    × (shown left type_release_failed ≡ some condition_unknown)
    × (left.deployed_release ≡ none)
run_body_paused_example =
    run_body_paused cluster settings 5 handler resource none 0 0 blank refl refl

bare_deleted : handle_deletion cluster settings 5 client bare 0 ≡ ((none, bare), 1)
unfolding handle_deletion
bare_deleted = refl

dry_options :
    apply_options
      ([] ++ (upgrade_options cluster settings resource ++ (dry_run_option ∷ [])))
      upgrade_defaults
    ≡ ok (record upgrade_defaults { max_history = 10; dry_run = true; dry_run_option = "server" })
unfolding apply_options upgrade_options
dry_options = refl

release_unchanged_example :
    (get_release_state cluster settings client resource end 0 ≡ (ok (some rel, unchanged), 2)) ↔ (
      (rel.manifest ≡ rel.manifest)
      × (◌≢◌ {A = String} "deployed" status_failed)
      × (◌≢◌ {A = String} "deployed" status_superseded))
release_unchanged_example =
    release_unchanged cluster settings client resource end rel rel
      (record { status = "deployed"; notes = "" }) 0 1 2 refl refl refl

accepts_all : Accepts open_cluster
accepts_all = record {
  retried = λ test f s t a h. h;
  converted = λ st. (end, refl);
  status_accepted = λ obj s. (obj, s + 1, refl, refl);
  update_accepted = λ obj s. (obj, s + 1, refl, refl);
}

held_has : contains_finalizer held.finalizers uninstall_finalizer ≡ true
unfolding contains_finalizer
held_has = refl

not_found_is : is_release_not_found release_not_found ≡ true
unfolding is_release_not_found
not_found_is = refl

deletion_completes_example :
    (sent : Unstructured) × (v : ℕ) × (a : Unstructured) × (w : ℕ) × (sent.finalizers ≡ [])
    × (open_cluster.update sent v ≡ (ok a, w))
    × (a.finalizers ≡ sent.finalizers)
    × (handle_deletion open_cluster settings 5 gone_client held 0
        ≡ wait open_cluster settings 5 a w)
deletion_completes_example =
    deletion_completes open_cluster settings 5 accepts_all gone_client held 0 1
      (err release_not_found) held_has refl (inr (release_not_found, refl, not_found_is))
