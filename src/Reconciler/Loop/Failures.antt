-- ===== src/Reconciler/Loop/Failures.antt =====
-- What becomes of an error of helm on its way through the action client and Reconcile.
use helm_operator_plugins.Object.{HelmAppStatus}
use helm_operator_plugins.Cluster.{Cluster}
use helm_operator_plugins.Updater.{Updater}
use helm_operator_plugins.Updater.Showing.{shown, after}
use helm_operator_plugins.Conditions.{type_release_failed, type_irreconcilable}
use helm_operator_plugins.Status.{condition_true}
use helm_operator_plugins.Reconciler.{Reconciler}
use helm_operator_plugins.Reconciler.Loop.{Work}
use helm_operator_plugins.Release.{Release}
use helm_operator_plugins.Prelude.{ℕ, ◌≡◌, false, some}

module _ (k : Cluster) (r : Reconciler k.State) (now : ℕ) where
  -- What Reconcile is to write of the failure.
  abbrev pub IsShown : HelmAppStatus → Work → Type 0
  IsShown st w =
      let left = after k w.updater.update_status_funcs now st in
      (w.updater.is_canceled ≡ false)
      × (shown left type_irreconcilable ≡ some condition_true)
      × (shown left type_release_failed ≡ some condition_true)
