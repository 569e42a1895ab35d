-- ===== src/Reconciler/Settings/Valid.antt =====
-- What New guarantees of a reconciler that is made with the options of the package.
use helm_operator_plugins.Object.{end, Values, Chart, GroupVersionKind, Unstructured}
use helm_operator_plugins.Client.{UninstallAction, OptionFor, apply_options}
use helm_operator_plugins.Client.Options.{InstallAction, UpgradeAction}
use helm_operator_plugins.Client.Actions.{ActionInterface}
use helm_operator_plugins.SpecValues.{get_spec_map, ParseInto, override_all, apply_overrides}
use helm_operator_plugins.Annotation.{
  Named, with_install_annotations, with_upgrade_annotations, with_uninstall_annotations,
}
use helm_operator_plugins.Reconciler.{PreHook, PostHook}
use helm_operator_plugins.Reconciler.Settings.{
  Kit, Settings, fresh_settings, with_client, with_action_client_getter, with_event_recorder,
  with_log, with_group_version_kind, with_chart, with_override_values, skip_dependent_watches,
  skip_primary_gvk_scheme_registration, with_max_concurrent_reconciles,
  with_wait_for_deletion_timeout, with_reconcile_period, with_max_release_history, on_maps,
  with_pause_reconcile_handler, with_pre_hook, with_post_hook, with_value_translator,
  with_value_mapper, with_selector, with_controller_setup_func, validate, new_reconciler,
}
use helm_operator_plugins.Exec.{Exec}
use helm_operator_plugins.Prelude.{
  is_some, Dict, ℤ, pos, negsuc, is_negative, is_positive, Error, Result, ok, Result-cases, String,
  ◌≡◌, refl, subst, inl, inr, Bool, true, false, Option, none, some, List, [], ◌∷◌, arith,
}

module _ (kit : Kit) (S : Type 0) (expand_env : String → String) (parse_into : ParseInto) where
  -- A call of one of the options.
  pub data Choice : Type 0 where
    client_is : kit.Client → Choice
    action_client_getter_is : (Unstructured → Exec S (ActionInterface S)) → Choice
    event_recorder_is : kit.EventRecorder → Choice
    log_is : kit.Logger → Choice
    group_version_kind_is : GroupVersionKind → Choice
    chart_is : Chart → Choice
    overrides_is : Dict String → Choice
    skip_watches_is : Bool → Choice
    skip_registration_is : Bool → Choice
    concurrent_is : ℤ → Choice
    deletion_timeout_is : ℤ → Choice
    period_is : ℤ → Choice
    history_size_is : ℤ → Choice
    install_is : List (Named InstallAction) → Choice
    upgrade_is : List (Named UpgradeAction) → Choice
    uninstall_is : List (Named UninstallAction) → Choice
    pause_is : (Unstructured → S → (Bool × Option Error) × S) → Choice
    pre_hook_is : PreHook S → Choice
    post_hook_is : PostHook S → Choice
    translator_is : (Unstructured → Result Values) → Choice
    mapper_is : (Values → Values) → Choice
    selector_is : kit.LabelSelector → Choice
    setup_func_is : (kit.Controller → Exec S (Unit {0})) → Choice

  unfoldable pub chosen : Choice → OptionFor (Settings kit S)
  chosen (client_is v) = with_client kit S v
  chosen (action_client_getter_is v) = with_action_client_getter kit S v
  chosen (event_recorder_is v) = with_event_recorder kit S v
  chosen (log_is v) = with_log kit S v
  chosen (group_version_kind_is v) = with_group_version_kind kit S v
  chosen (chart_is v) = with_chart kit S v
  chosen (overrides_is v) = with_override_values kit S expand_env parse_into v
  chosen (skip_watches_is v) = skip_dependent_watches kit S v
  chosen (skip_registration_is v) = skip_primary_gvk_scheme_registration kit S v
  chosen (concurrent_is v) = with_max_concurrent_reconciles kit S v
  chosen (deletion_timeout_is v) = with_wait_for_deletion_timeout kit S v
  chosen (period_is v) = with_reconcile_period kit S v
  chosen (history_size_is v) = with_max_release_history kit S v
  chosen (install_is v) = on_maps kit S (with_install_annotations v)
  chosen (upgrade_is v) = on_maps kit S (with_upgrade_annotations v)
  chosen (uninstall_is v) = on_maps kit S (with_uninstall_annotations v)
  chosen (pause_is v) = with_pause_reconcile_handler kit S v
  chosen (pre_hook_is v) = with_pre_hook kit S v
  chosen (post_hook_is v) = with_post_hook kit S v
  chosen (translator_is v) = with_value_translator kit S v
  chosen (mapper_is v) = with_value_mapper kit S v
  chosen (selector_is v) = with_selector kit S v
  chosen (setup_func_is v) = with_controller_setup_func kit S v

  unfoldable pub all_chosen : List Choice → List (OptionFor (Settings kit S))
  all_chosen [] = []
  all_chosen (c ∷ cs) = chosen c ∷ all_chosen cs

  -- No number is negative, and the override values can be applied to an empty spec.
  pub record IsValid (r : Settings kit S) : Type 0 where
    pub concurrent : is_negative r.max_concurrent_reconciles ≡ false
    pub period : is_negative r.reconcile_period ≡ false
    pub timeout : is_negative r.wait_for_deletion_timeout ≡ false
    pub history :
        elim r.max_release_history as (λ _. Bool) [ none ↦ false | some n ↦ is_negative n ] ≡ false
    pub overrides : (override_all expand_env parse_into r.override_values end).0 ≡ none

  not_negative : (i : ℤ) → is_positive i ≡ true → is_negative i ≡ false
  not_negative (pos n) h = refl
  not_negative (negsuc n) h = cc

  chosen-IsValid :
      (c : Choice) (r r' : Settings kit S) → IsValid r → chosen c r ≡ ok r' → IsValid r'
  unfolding chosen with_client with_action_client_getter with_event_recorder with_log
      with_group_version_kind with_chart with_override_values skip_dependent_watches
      skip_primary_gvk_scheme_registration with_max_concurrent_reconciles
      with_wait_for_deletion_timeout with_reconcile_period with_max_release_history on_maps
      with_pause_reconcile_handler with_pre_hook with_post_hook with_value_translator
      with_value_mapper with_selector with_controller_setup_func apply_overrides get_spec_map
  chosen-IsValid (client_is v) r r' i h = ground arith
  chosen-IsValid (action_client_getter_is v) r r' i h = ground arith
  chosen-IsValid (event_recorder_is v) r r' i h = ground arith
  chosen-IsValid (log_is v) r r' i h = ground arith
  chosen-IsValid (group_version_kind_is v) r r' i h = ground arith
  chosen-IsValid (chart_is v) r r' i h = ground arith
  chosen-IsValid (overrides_is v) r r' i h = ground arith
  chosen-IsValid (skip_watches_is v) r r' i h = ground arith
  chosen-IsValid (skip_registration_is v) r r' i h = ground arith
  chosen-IsValid (concurrent_is v) r r' i h = ground (arith, not_negative v)
  chosen-IsValid (deletion_timeout_is v) r r' i h = ground (arith, not_negative v)
  chosen-IsValid (period_is v) r r' i h = ground (arith)
  chosen-IsValid (history_size_is v) r r' i h = ground (arith)
  chosen-IsValid (install_is v) r r' i h = ground arith
  chosen-IsValid (upgrade_is v) r r' i h = ground arith
  chosen-IsValid (uninstall_is v) r r' i h = ground arith
  chosen-IsValid (pause_is v) r r' i h = ground arith
  chosen-IsValid (pre_hook_is v) r r' i h = ground arith
  chosen-IsValid (post_hook_is v) r r' i h = ground arith
  chosen-IsValid (translator_is v) r r' i h = ground arith
  chosen-IsValid (mapper_is v) r r' i h = ground arith
  chosen-IsValid (selector_is v) r r' i h = ground arith
  chosen-IsValid (setup_func_is v) r r' i h = ground arith

  all_chosen-IsValid :
      (cs : List Choice) (r r' : Settings kit S)
      → IsValid r
      → apply_options (all_chosen cs) r ≡ ok r'
      → IsValid r'
  unfolding all_chosen apply_options
  all_chosen-IsValid [] r r' i h = ground (arith, i, h)
  all_chosen-IsValid (c ∷ cs) r r' i h = elim (Result-cases (chosen c r)) [
    | inl (q, e) ↦ all_chosen-IsValid cs q r' (chosen-IsValid c r q i e) (ground (arith, e, h))
    | inr (x, e) ↦ ground (arith, e, h)
  ]

  fresh-IsValid : IsValid (fresh_settings kit S)
  unfolding override_all
  fresh-IsValid = ground arith

  -- Whatever options of the package New is given, in whatever order, a reconciler that it returns
  -- has a kind and a chart, no negative number among its settings, and override values that can be
  -- applied to an empty spec.
  pub new_reconciler-IsValid :
      (cs : List Choice) (r : Settings kit S)
      → new_reconciler kit S (all_chosen cs) ≡ ok r
      → (is_some r.gvk ≡ true) × (is_some r.chrt ≡ true) × IsValid r
  unfolding new_reconciler validate
  new_reconciler-IsValid cs r h =
      elim (Result-cases (apply_options (all_chosen cs) (fresh_settings kit S))) [
        | inr (x, e) ↦ ground (arith, e, h)
        | inl (q, e) ↦
            let same : q ≡ r = ground (arith, e, h) in
            (
              ground (arith, e, h, same),
              ground (arith, e, h, same),
              subst IsValid same (all_chosen-IsValid cs (fresh_settings kit S) q fresh-IsValid e),
            )
      ]
