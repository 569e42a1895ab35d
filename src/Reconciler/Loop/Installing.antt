-- ===== src/Reconciler/Loop/Installing.antt =====
-- The first reconcile of a custom resource, from the call to the answer.
use helm_operator_plugins.Object.{Values, Unstructured}
use helm_operator_plugins.Cluster.{Cluster}
use helm_operator_plugins.Controllerutil.{contains_finalizer}
use helm_operator_plugins.Updater.{Updater, new, update_status, ensure_condition}
use helm_operator_plugins.Updater.Showing.{showing, after-cons, after-nil, after-append}
use helm_operator_plugins.Conditions.{initialized, deployed, irreconcilable, paused}
use helm_operator_plugins.Status.{condition_true, condition_false}
use helm_operator_plugins.Client.Actions.{ActionInterface}
use helm_operator_plugins.Reconciler.{Reconciler, uninstall_finalizer, needs_install}
use helm_operator_plugins.Reconciler.Actions.{get_release_state, get_values}
use helm_operator_plugins.Reconciler.Loop.{
  run_pre_hooks, run_action, reconcile_release, lookup_updates, with_client, run_active, run_body,
  finish, add_finalizer, reconcile,
}
use helm_operator_plugins.Release.{Release}
use helm_operator_plugins.Prelude.{
  Error, ok, err, is_release_not_found, ℕ, String, ◌≡◌, true, none, [], ◌∷◌, arith,
}

pub ruleset running = (after-append, after-cons, after-nil, showing)

-- What is collected before an install of a release that was not there.
abbrev pub before_install : Updater → Updater
before_install u = update_status u (ensure_condition (irreconcilable condition_false "" "") ∷ [])

abbrev pub not_installed : Updater
not_installed =
    update_status
      (update_status (update_status new (ensure_condition (paused condition_false "" "") ∷ []))
        (ensure_condition (deployed condition_false "" "") ∷ []))
      (ensure_condition (initialized condition_true "" "") ∷ [])

module _ (k : Cluster) (r : Reconciler k.State) (now : ℕ) (client : ActionInterface k.State) where
  pub reconcile_release-missing :
      (obj valued hooked : Unstructured) (u : Updater) (vals hooked_vals : Values) (e : Error)
      (s t v : k.State)
      → get_values k r obj ≡ (ok vals, valued)
      → client.get valued.name [] s ≡ (err e, t)
      → is_release_not_found e ≡ true
      → run_pre_hooks k r now r.pre_hooks valued vals t ≡ ((hooked, hooked_vals), v)
      → reconcile_release k r now client obj u s
        ≡ run_action k r now client hooked (before_install u) hooked_vals none needs_install v
  unfolding reconcile_release get_release_state
  reconcile_release-missing obj valued hooked u vals hooked_vals e s t v given missing gone hooks =
      ground (arith, given, missing, gone, hooks)

  pub run_body_installs :
      (obj : Unstructured) (e : Error) (s t v : k.State)
      → r.pause_handler ≡ none
      → obj.deletion_timestamp ≡ none
      → r.action_client_for obj s ≡ (ok client, t)
      → client.get obj.name [] t ≡ (err e, v)
      → is_release_not_found e ≡ true
      → run_body k r now obj s ≡ reconcile_release k r now client obj not_installed v
  unfolding run_body run_active with_client lookup_updates
  run_body_installs obj e s t v active alive made missing gone =
      ground (arith, active, made, missing, gone, alive)

  pub reached :
      (namespace name : String) (obj : Unstructured) (s t : k.State)
      → k.get namespace name s ≡ (ok obj, t)
      → contains_finalizer obj.finalizers uninstall_finalizer ≡ true
      → reconcile k r now namespace name s ≡ finish k r now (run_body k r now obj t)
  unfolding reconcile add_finalizer
  reached namespace name obj s t found has = ground (arith, found, has)
