-- ===== src/Run.antt =====
-- The run command (internal/cmd/helm-operator/run/cmd.go): the options of the manager, and a
-- reconciler for each entry of the watches file. An exit of the process is an error here; the log,
-- the health checks and the start of the manager are left out.
pub mod Inverted
pub mod Command
pub mod Started
mod Data
mod Examples
use helm_operator_plugins.Object.{Chart}
use helm_operator_plugins.Client.{OptionFor}
use helm_operator_plugins.Client.Config.{ConfigLib}
use helm_operator_plugins.Flags.{Flags, ManagerOptions, changed, to_manager_options}
use helm_operator_plugins.Namespaces.{configure_watch_namespaces}
use helm_operator_plugins.Watches.{Watch}
use helm_operator_plugins.Annotation.{
  default_install_annotations, default_upgrade_annotations, default_uninstall_annotations,
  with_install_annotations, with_upgrade_annotations, with_uninstall_annotations,
}
use helm_operator_plugins.SpecValues.{ParseInto}
use helm_operator_plugins.Reconciler.Settings.{
  Kit, Settings, with_group_version_kind, with_chart, with_override_values, skip_dependent_watches,
  with_max_concurrent_reconciles, with_reconcile_period, on_maps, with_selector, new_reconciler,
}
use helm_operator_plugins.Reconciler.Setup.{Manager, setup_with_manager}
use helm_operator_plugins.Exec.{Exec, pure, lift, ◌>>=◌, ◌>>◌}
use helm_operator_plugins.Prelude.{
  if◌then◌else◌, message, panic, Result, ok, err, String, Bool, false, ◌&&◌, Option, none, some,
  List, [], ◌∷◌, ◌==◌,
}

abbrev pub no_options : ManagerOptions
no_options = record {
  metrics_bind_address = "";
  metrics_tls_opts = [];
  metrics_secure_serving = false;
  health_probe_bind_address = "";
  leader_election = false;
  leader_election_id = "";
  leader_election_namespace = "";
  leader_election_resource_lock = "";
  webhook_server = none;
  default_namespaces = none;
}

-- OPERATOR_NAME, which counts only if the flag is not set.
unfoldable pub with_operator_name : Flags → Option String → ManagerOptions → ManagerOptions
with_operator_name f none options = options
with_operator_name f (some operator_name) options =
    if changed f "leader-election-id"
    then options
    else if options.leader_election_id == ""
    then record options { leader_election_id = operator_name }
    else options

-- `operator_name` and `namespaces` are the environment variables OPERATOR_NAME and WATCH_NAMESPACE.
unfoldable pub manager_options : Flags → Option String → String → Result ManagerOptions
unfolding with_operator_name to_manager_options configure_watch_namespaces
manager_options f operator_name namespaces =
    if changed f "leader-elect" && changed f "enable-leader-election"
    then err (message "only one of --leader-elect and --enable-leader-election may be set")
    else if changed f "metrics-addr" && changed f "metrics-bind-address"
    then err (message "only one of --metrics-addr and --metrics-bind-address may be set")
    else ok (
        configure_watch_namespaces namespaces
          (to_manager_options f (with_operator_name f operator_name no_options)))

-- A pointer that is read.
abbrev pub deref : {A : Type 0} → Option A → Result A
deref none = err (panic "nil pointer dereference")
deref (some a) = ok a

module _ (kit : Kit) (S : Type 0) (expand_env : String → String) (parse_into : ParseInto) where
  -- The options for an entry of the watches file.
  unfoldable pub watch_options :
      Flags
      → Watch kit.LabelSelector
      → Chart
      → kit.LabelSelector
      → Bool
      → List (OptionFor (Settings kit S))
  watch_options f w chrt selector dependents =
      with_chart kit S chrt
      ∷ with_group_version_kind kit S w.gvk
      ∷ with_override_values kit S expand_env parse_into
          (elim w.override_values [ none ↦ [] | some values ↦ values ])
      ∷ with_selector kit S selector
      ∷ skip_dependent_watches kit S dependents
      ∷ with_max_concurrent_reconciles kit S f.max_concurrent_reconciles
      ∷ with_reconcile_period kit S f.reconcile_period
      ∷ on_maps kit S (with_install_annotations default_install_annotations)
      ∷ on_maps kit S (with_upgrade_annotations default_upgrade_annotations)
      ∷ on_maps kit S (with_uninstall_annotations default_uninstall_annotations)
      ∷ []

  unfoldable pub reconciler_for : Flags → Watch kit.LabelSelector → Result (Settings kit S)
  unfolding watch_options new_reconciler
  reconciler_for f w = elim (deref w.chart) [
    | err e ↦ err e
    | ok chrt ↦ elim (deref w.selector) [
      | err e ↦ err e
      | ok selector ↦ elim (deref w.watch_dependent_resources) [
        | err e ↦ err e
        | ok dependents ↦ new_reconciler kit S (watch_options f w chrt selector dependents)
      ]
    ]
  ]

  -- The loop over the entries.
  unfoldable pub run_watches :
      {conf : ConfigLib}
      → Manager kit conf S
      → Flags
      → List (Watch kit.LabelSelector)
      → Exec S (List (Settings kit S))
  unfolding reconciler_for setup_with_manager
  run_watches mgr f [] = pure []
  run_watches mgr f (w ∷ ws) = do
    r ← lift (reconciler_for f w)
    ready ← setup_with_manager mgr r
    more ← run_watches mgr f ws
    pure (ready ∷ more)
