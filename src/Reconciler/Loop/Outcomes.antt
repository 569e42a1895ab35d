-- ===== src/Reconciler/Loop/Outcomes.antt =====
-- What the custom resource shows after each way through Reconcile.
use helm_operator_plugins.Object.{HelmAppStatus, Unstructured}
use helm_operator_plugins.Cluster.{Cluster}
use helm_operator_plugins.Updater.{
  UpdateStatusFunc, Updater, ensure_condition, helm_app_release_for, ensure_deployed_release, apply,
}
use helm_operator_plugins.Updater.Showing.{
  shown, showing, after, after-cons, after-nil, after-append,
}
use helm_operator_plugins.Conditions.{
  type_initialized, type_deployed, type_release_failed, type_irreconcilable, type_paused, deployed,
  release_failed, irreconcilable, paused,
}
use helm_operator_plugins.Reconciler.{Reconciler}
use helm_operator_plugins.Reconciler.Actions.{report_failure}
use helm_operator_plugins.Reconciler.Loop.{
  Work, paused_updates, reconciled_updates, finish_release, run_body, finish,
}
use helm_operator_plugins.Status.{condition_true, condition_false, condition_unknown}
use helm_operator_plugins.Release.{Release}
use helm_operator_plugins.Prelude.{
  if◌then◌else◌, Error, is_not_found, holds_for, ℕ, String, ◌≡◌, refl, Bool, true, Option, none,
  some, List, [], ◌∷◌, ◌++◌, arith,
}

ruleset running = (after-append, after-cons, after-nil, showing)

-- The five last updates of a reconcile, behind any others.
deployed_shows :
    (k : Cluster) (fs : List UpdateStatusFunc) (reason reported : String) (rel : Release) (now : ℕ)
    (st : HelmAppStatus)
    → let left =
        after k
          ((fs
              ++ (ensure_condition (deployed condition_true reason reported)
                  ∷ ensure_deployed_release (some rel)
                  ∷ []))
            ++ reconciled_updates)
          now
          st in
      (shown left type_deployed ≡ some condition_true)
      × (shown left type_release_failed ≡ some condition_false)
      × (shown left type_irreconcilable ≡ some condition_false)
      × (left.deployed_release ≡ some (record { name = rel.name; manifest = rel.manifest }))
unfolding deployed release_failed irreconcilable helm_app_release_for
deployed_shows k fs reason reported rel now st =
    (simp running, simp running, simp running, simp running)

paused_shows :
    (k : Cluster) (now : ℕ) (st : HelmAppStatus)
    → let left = after k paused_updates now st in
      (shown left type_paused ≡ some condition_true)
      × (shown left type_irreconcilable ≡ some condition_unknown)
      × (shown left type_deployed ≡ some condition_unknown)
      × (shown left type_initialized ≡ some condition_unknown)
      × (shown left type_release_failed ≡ some condition_unknown)
      × (left.deployed_release ≡ none)
unfolding paused helm_app_release_for
paused_shows k now st =
    (simp running, simp running, simp running, simp running, simp running, simp running)

module _ (k : Cluster) (r : Reconciler k.State) (now : ℕ) where
  -- When the release action is done and the post-hooks have run, whatever they did, the collected
  -- updates leave a status that shows Deployed as True, ReleaseFailed and Irreconcilable as False,
  -- and the name and the manifest of the release, whatever the status was and whatever was
  -- collected before; Reconcile runs again after the period, and no error is set.
  pub finish_release_shows :
      (obj : Unstructured) (u : Updater) (rel : Release) (s : k.State) (st : HelmAppStatus)
      → let w = (finish_release k r now obj u rel s).0 in
        let left = after k w.updater.update_status_funcs now st in
        (shown left type_deployed ≡ some condition_true)
        × (shown left type_release_failed ≡ some condition_false)
        × (shown left type_irreconcilable ≡ some condition_false)
        × (left.deployed_release ≡ some (record { name = rel.name; manifest = rel.manifest }))
        × (w.requeue_after ≡ r.reconcile_period)
        × (w.error ≡ none)
  unfolding finish_release
  finish_release_shows obj u rel s st =
      let (deployed', failed', irreconcilable', release') =
        deployed_shows k u.update_status_funcs _ _ rel now st in
      (deployed', failed', irreconcilable', release', refl, refl)

  -- A paused object asks for no helm client and no action: the state is what the handler left. The
  -- updates show Paused as True, the other four conditions as Unknown, and no release.
  pub run_body_paused :
      (handler : Unstructured → k.State → (Bool × Option Error) × k.State) (obj : Unstructured)
      (failure : Option Error) (s t : k.State) (st : HelmAppStatus)
      → r.pause_handler ≡ some handler
      → handler obj s ≡ ((true, failure), t)
      → let (w, left_state) = run_body k r now obj s in
        let left = after k w.updater.update_status_funcs now st in
        (left_state ≡ t)
        × (w.error ≡ none)
        × (shown left type_paused ≡ some condition_true)
        × (shown left type_irreconcilable ≡ some condition_unknown)
        × (shown left type_deployed ≡ some condition_unknown)
        × (shown left type_initialized ≡ some condition_unknown)
        × (shown left type_release_failed ≡ some condition_unknown)
        × (left.deployed_release ≡ none)
  unfolding run_body
  run_body_paused handler obj failure s t st handled answered =
      let (a, b, c, d, e, f) = paused_shows k now st in
      rw handled (rw answered (refl, refl, a, b, c, d, e, f))

  -- If helm's install or upgrade fails, the error is the error of the body and the updates show
  -- Irreconcilable and ReleaseFailed as True, whatever was collected before.
  pub report_failure_shows :
      (u : Updater) (reason : String) (e : Error) (st : HelmAppStatus)
      → let left = after k (report_failure k r u reason e).update_status_funcs now st in
        (shown left type_irreconcilable ≡ some condition_true)
        × (shown left type_release_failed ≡ some condition_true)
  unfolding report_failure release_failed irreconcilable
  report_failure_shows u reason e st = (simp running, simp running)

  -- The error of the body is never masked by the deferred Apply; without one, the error is that of
  -- Apply, unless it says that the object is gone.
  pub finish_error :
      (w : Work) (s : k.State)
      → (finish k r now (w, s)).0.1 ≡ (elim w.error [
        | some e ↦ some e
        | none ↦
            let failure = (apply k now w.updater w.obj s).0.0 in
            if holds_for is_not_found failure then none else failure
      ])
  unfolding finish
  finish_error w s = ground arith
