-- ===== src/Run/Examples.antt =====
-- The theorems on the construction of a reconciler at concrete data: an entry of the watches file
-- that wants its dependent resources watched, over a count of the calls to the manager.
use helm_operator_plugins.Run.Data.{
  kit, manager, entry, flags, plain, parse, choices, chosen_settings, ready_of, calls_of,
  kept_values, text_of, of_entry,
}
use helm_operator_plugins.Annotation.{
  install_disable_hooks, upgrade_disable_hooks, upgrade_force, uninstall_disable_hooks,
  install_description, upgrade_description, uninstall_description, with_install_annotations,
  with_upgrade_annotations, with_uninstall_annotations,
}
use helm_operator_plugins.Client.{apply_options}
use helm_operator_plugins.Client.Config.{new_action_config_getter}
use helm_operator_plugins.Client.Getter.{new_action_client_getter}
use helm_operator_plugins.SpecValues.{apply_overrides}
use helm_operator_plugins.Reconciler.Settings.{
  with_group_version_kind, with_chart, with_override_values, skip_dependent_watches,
  with_max_concurrent_reconciles, with_reconcile_period, on_maps, with_selector, validate,
  new_reconciler,
}
use helm_operator_plugins.Reconciler.Settings.Valid.{
  chosen, all_chosen, IsValid, new_reconciler-IsValid,
}
use helm_operator_plugins.Reconciler.Setup.{
  dependent_watcher, default_action_client_getter, add_defaults, setup_scheme, selector_predicates,
  setup_watches, run_setup_funcs, setup_with_manager, as_reconciler,
}
use helm_operator_plugins.Reconciler.Setup.Filled.{IsSetUp, setup_with_manager_lem, new-setup_runs}
use helm_operator_plugins.Run.{watch_options, reconciler_for}
use helm_operator_plugins.Run.Inverted.{watch_inverted}
use helm_operator_plugins.Prelude.{
  if◌then◌else◌, is_some, ok, ℕ, String, ◌≡◌, refl, true, some, [], ◌∷◌,
}

made_by_choices : new_reconciler kit ℕ (all_chosen kit ℕ plain parse choices) ≡ ok chosen_settings
unfolding new_reconciler all_chosen chosen with_chart with_group_version_kind with_reconcile_period
made_by_choices = refl

new_reconciler-IsValid_example :
    (is_some chosen_settings.gvk ≡ true)
    × (is_some chosen_settings.chrt ≡ true)
    × IsValid kit ℕ plain parse chosen_settings
new_reconciler-IsValid_example =
    new_reconciler-IsValid kit ℕ plain parse choices chosen_settings made_by_choices

chosen_set_up :
    setup_with_manager manager chosen_settings 0
    ≡ (ok (ready_of chosen_settings), calls_of chosen_settings)
unfolding setup_with_manager add_defaults default_action_client_getter new_action_config_getter
    new_action_client_getter setup_scheme setup_watches selector_predicates run_setup_funcs
chosen_set_up = refl

setup_with_manager_lem_example : IsSetUp manager chosen_settings (ready_of chosen_settings)
setup_with_manager_lem_example =
    setup_with_manager_lem manager chosen_settings (ready_of chosen_settings) 0
      (calls_of chosen_settings) chosen_set_up

new-setup_runs_example :
    is_some (as_reconciler plain parse kept_values text_of (ready_of chosen_settings)) ≡ true
new-setup_runs_example =
    new-setup_runs manager (all_chosen kit ℕ plain parse choices) chosen_settings
      (ready_of chosen_settings) 0 (calls_of chosen_settings) plain parse kept_values text_of
      made_by_choices chosen_set_up

entry_made : reconciler_for kit ℕ plain parse flags entry ≡ ok of_entry
unfolding reconciler_for watch_options new_reconciler apply_options validate with_chart
    with_group_version_kind with_override_values apply_overrides with_selector
    skip_dependent_watches with_max_concurrent_reconciles with_reconcile_period on_maps
    with_install_annotations with_upgrade_annotations with_uninstall_annotations install_description
    install_disable_hooks upgrade_description upgrade_disable_hooks upgrade_force
    uninstall_description uninstall_disable_hooks
entry_made = refl

entry_set_up : setup_with_manager manager of_entry 0 ≡ (ok (ready_of of_entry), calls_of of_entry)
unfolding setup_with_manager add_defaults default_action_client_getter new_action_config_getter
    new_action_client_getter setup_scheme setup_watches selector_predicates run_setup_funcs
    reconciler_for watch_options new_reconciler apply_options validate with_chart
    with_group_version_kind with_override_values apply_overrides with_selector
    skip_dependent_watches with_max_concurrent_reconciles with_reconcile_period on_maps
    with_install_annotations with_upgrade_annotations with_uninstall_annotations install_description
    install_disable_hooks upgrade_description upgrade_disable_hooks upgrade_force
    uninstall_description uninstall_disable_hooks
entry_set_up = refl

watch_inverted_example :
    (c : String) × ((ready_of of_entry).post_hooks
      ≡ (if true then [] else dependent_watcher manager c ∷ []))
    × ((ready_of of_entry).reconcile_period ≡ flags.reconcile_period)
    × ((ready_of of_entry).max_concurrent_reconciles ≡ flags.max_concurrent_reconciles)
    × ((ready_of of_entry).gvk ≡ some entry.gvk)
    × ((ready_of of_entry).chrt ≡ entry.chart)
watch_inverted_example =
    watch_inverted kit ℕ plain parse manager flags entry true of_entry (ready_of of_entry) 0
      (calls_of of_entry) refl entry_made entry_set_up
