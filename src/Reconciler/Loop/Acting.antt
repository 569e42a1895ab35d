-- ===== src/Reconciler/Loop/Acting.antt =====
-- Reconcile from `getValues` on: the hooks, the `switch` on the release state, and what follows it.
use helm_operator_plugins.Object.{Values, Unstructured}
use helm_operator_plugins.Cluster.{Cluster}
use helm_operator_plugins.Updater.{Updater, update_status, ensure_condition}
use helm_operator_plugins.Conditions.{irreconcilable}
use helm_operator_plugins.Status.{condition_false}
use helm_operator_plugins.Client.Actions.{ActionInterface}
use helm_operator_plugins.Reconciler.{
  PreHook, PostHook, Reconciler, ReleaseState, needs_install, needs_upgrade, unchanged,
}
use helm_operator_plugins.Reconciler.Actions.{
  ensure_deployed, get_release_state, do_install, do_upgrade, do_reconcile, get_values,
}
use helm_operator_plugins.Reconciler.Loop.Updates.{
  no_values_updates, no_state_updates, reconciled_updates,
}
use helm_operator_plugins.Release.{Release}
use helm_operator_plugins.Prelude.{
  Error, panic, Result, ok, err, ℕ, Option, none, some, List, [], ◌∷◌,
}

-- What the body of Reconcile leaves: the object, the collected updates, the time after which to run
-- again (0 for none) and the error.
pub record Work : Type 0 where
  pub obj : Unstructured
  pub updater : Updater
  pub requeue_after : ℕ
  pub error : Option Error

-- ctrl.Result and the error of Reconcile
abbrev pub Reply : Type 0
Reply = ℕ × Option Error

module _ (k : Cluster) (r : Reconciler k.State) (now : ℕ) where
  open k use {State}

  abbrev pub failing : Unstructured → Updater → Error → Work
  failing obj u e = record { obj = obj; updater = u; requeue_after = 0; error = some e }

  -- A hook that fails is logged, and the next one runs.
  unfoldable pub run_pre_hooks :
      List (PreHook State) → Unstructured → Values → State → (Unstructured × Values) × State
  run_pre_hooks [] obj vals s = ((obj, vals), s)
  run_pre_hooks (h ∷ hs) obj vals s =
      let ((_, obj', vals'), t) = h obj vals s in run_pre_hooks hs obj' vals' t

  unfoldable pub run_post_hooks :
      List (PostHook State) → Release → Unstructured → State → Unstructured × State
  run_post_hooks [] rel obj s = (obj, s)
  run_post_hooks (h ∷ hs) rel obj s =
      let ((_, obj'), t) = h obj rel s in run_post_hooks hs rel obj' t

  -- Everything behind the `switch`, for the release that it left.
  unfoldable pub finish_release : Unstructured → Updater → Release → State → Work × State
  unfolding run_post_hooks ensure_deployed
  finish_release obj u rel s =
      let (obj', t) = run_post_hooks r.post_hooks rel obj s in
      (
        record {
          obj = obj';
          updater = update_status (ensure_deployed u rel) reconciled_updates;
          requeue_after = r.reconcile_period;
          error = none;
        },
        t,
      )

  unfoldable pub after_action : Unstructured → (Result Release × Updater) × State → Work × State
  unfolding finish_release
  after_action obj ((done, u), s) = elim done [
    | err e ↦ (failing obj u e, s)
    | ok rel ↦ finish_release obj u rel s
  ]

  -- The `switch` on the release state. To reconcile needs the current release.
  unfoldable pub run_action :
      ActionInterface State
      → Unstructured
      → Updater
      → Values
      → Option Release
      → ReleaseState
      → State
      → Work × State
  unfolding do_install do_upgrade do_reconcile after_action
  run_action client obj u vals current needs_install s =
      after_action obj (do_install k r client u obj vals s)
  run_action client obj u vals current needs_upgrade s =
      after_action obj (do_upgrade k r client u obj vals s)
  run_action client obj u vals none unchanged s =
      (failing obj u (panic "nil pointer dereference"), s)
  run_action client obj u vals (some rel) unchanged s =
      let ((failure, u'), t) = do_reconcile k r client u rel s in
      elim failure [ some e ↦ (failing obj u' e, t) | none ↦ finish_release obj u' rel t ]

  -- From `getValues` on: the object is not being deleted.
  unfoldable pub reconcile_release :
      ActionInterface State → Unstructured → Updater → State → Work × State
  unfolding get_values get_release_state run_pre_hooks run_action
  reconcile_release client obj u s =
      let (got, obj') = get_values k r obj in
      elim got [
        | err e ↦ (failing obj' (update_status u (no_values_updates (r.error_text e))) e, s)
        | ok vals ↦
            let (found, t) = get_release_state k r client obj' vals s in
            elim found [
              | err e ↦ (failing obj' (update_status u (no_state_updates (r.error_text e))) e, t)
              | ok (current, state) ↦
                  let u' =
                    update_status u
                      (ensure_condition (irreconcilable condition_false "" "") ∷ []) in
                  let ((hooked, vals'), v) = run_pre_hooks r.pre_hooks obj' vals t in
                  run_action client hooked u' vals' current state v
            ]
      ]
