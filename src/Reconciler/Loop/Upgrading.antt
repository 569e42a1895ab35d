-- ===== src/Reconciler/Loop/Upgrading.antt =====
-- The later reconciles of a custom resource, from the call to the answer: an upgrade of its
-- release, or a repair of what the release has in the cluster.
use helm_operator_plugins.Object.{Values, Unstructured}
use helm_operator_plugins.Cluster.{Cluster}
use helm_operator_plugins.Updater.{Updater, new, update_status, ensure_condition}
use helm_operator_plugins.Conditions.{initialized, release_failed, paused}
use helm_operator_plugins.Status.{condition_true, condition_false}
use helm_operator_plugins.Client.Actions.{ActionInterface}
use helm_operator_plugins.Reconciler.{
  Reconciler, ReleaseState, needs_install, needs_upgrade, unchanged,
}
use helm_operator_plugins.Reconciler.Actions.{ensure_deployed, upgrade_options}
use helm_operator_plugins.Reconciler.Loop.{reconcile}
use helm_operator_plugins.Release.{Release}
use helm_operator_plugins.Prelude.{ok, ℕ, ◌≡◌, none, some, [], ◌∷◌}

module _ (k : Cluster) (r : Reconciler k.State) (now : ℕ) (client : ActionInterface k.State) where
  -- What is collected before the release that helm has is compared.
  abbrev found_updates : Release → Updater
  found_updates current =
      update_status
        (ensure_deployed (update_status new (ensure_condition (paused condition_false "" "") ∷ []))
          current)
        (ensure_condition (initialized condition_true "" "") ∷ [])

  -- helm upgrades the release of the object.
  abbrev pub IsUpgraded : Unstructured → Values → k.State → Release → k.State → Type 0
  IsUpgraded hooked vals s rel t =
      (current : Release) × (m : k.State) × (client.get hooked.name [] s ≡ (ok current, m))
      × (client.upgrade hooked.name hooked.namespace r.chrt vals (upgrade_options k r hooked) m
          ≡ ((some rel, none), t))

  -- helm finds the release as it should be, and its resources are reconciled.
  abbrev pub IsRepaired : Release → k.State → Release → k.State → Type 0
  IsRepaired current s rel t = (current ≡ rel) × (client.reconcile current s ≡ (ok tt, t))

  abbrev pub IsActedOn :
      ReleaseState → Release → Unstructured → Values → k.State → Release → k.State → Type 0
  IsActedOn needs_install current hooked vals s rel t = ⊥
  IsActedOn needs_upgrade current hooked vals s rel t = IsUpgraded hooked vals s rel t
  IsActedOn unchanged current hooked vals s rel t = IsRepaired current s rel t

  -- What the action collects.
  abbrev acted_updates : ReleaseState → Updater → Updater
  acted_updates unchanged u =
      update_status u (ensure_condition (release_failed condition_false "" "") ∷ [])
  acted_updates _ u = u
