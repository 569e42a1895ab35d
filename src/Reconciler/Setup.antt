-- ===== src/Reconciler/Setup.antt =====
-- SetupWithManager (pkg/reconciler/reconciler.go): defaults, the scheme, the controller and its
-- watches. The log is left out.
pub mod Filled
pub mod Keeping
use helm_operator_plugins.Object.{Values, Chart, GroupVersionKind, Unstructured}
use helm_operator_plugins.Controllerutil.{RestMapper}
use helm_operator_plugins.Hook.{WatchLib, run_hook}
use helm_operator_plugins.Client.Actions.{Helm, ActionInterface}
use helm_operator_plugins.Client.Config.{
  ConfigLib, new_action_config_getter, Configuration, action_config_for,
}
use helm_operator_plugins.Client.Getter.{new_action_client_getter, client_for}
use helm_operator_plugins.Client.PostRenderer.Owner.{RenderLib}
use helm_operator_plugins.SpecValues.{
  default_wait_for_deletion_timeout, default_max_release_history, default_mapper,
  default_translator, ParseInto,
}
use helm_operator_plugins.Reconciler.{PostHook, Reconciler}
use helm_operator_plugins.Reconciler.Settings.{Kit, Settings}
use helm_operator_plugins.Exec.{Exec, pure, lift, on_error, ◌>>=◌, ◌>>◌}
use helm_operator_plugins.Prelude.{
  ltb, if◌then◌else◌, is_some, ℤ, pos, is_zero, pos_part, Error, message, wrap, panic, Result, ok,
  err, ℕ, String, ◌<>◌, ◌&&◌, not, Option, none, some, List, [], ◌∷◌,
}

-- What a controller watches: the custom resources, or the secrets that one of them controls.
pub data Source (Predicate : Type 0) : Type 0 where
  primary : GroupVersionKind → List Predicate → Source Predicate
  owned_secrets : GroupVersionKind → List Predicate → Source Predicate

-- manager.Manager, controller.New and predicate.LabelSelectorPredicate of controller-runtime,
-- strings.ToLower, the default logger, and helm over a configuration. Each controller has a dependent
-- resource watcher of its own at most, whose map is a part of the outside state.
pub record Manager (kit : Kit) (conf : ConfigLib) (S : Type 0) : Type 1 where
  pub Predicate : Type 0
  pub Doc : Type 0
  pub get_client : kit.Client
  pub get_config : conf.RestConfig
  pub get_rest_mapper : RestMapper
  pub get_event_recorder_for : String → kit.EventRecorder
  pub default_log : kit.Logger
  pub to_lower : String → String
  pub add_known_type : GroupVersionKind → S → S
  pub add_to_group_version : String → String → S → S
  pub new_controller : String → ℤ → Exec S kit.Controller
  pub selector_size : kit.LabelSelector → ℕ
  pub label_selector_predicate : kit.LabelSelector → Result Predicate
  pub watch : kit.Controller → Source Predicate → Exec S (Unit {0})
  pub watch_lib : kit.Controller → WatchLib S Doc
  pub read_watches : kit.Controller → S → List GroupVersionKind
  pub write_watches : kit.Controller → List GroupVersionKind → S → S
  pub helm_over : Configuration conf → Helm S
  pub render : conf.KubeClient → RenderLib

module _ {kit : Kit} {conf : ConfigLib} {S : Type 0} (mgr : Manager kit conf S) where
  abbrev pub failure_of : Result (Unit {0}) → Option Error
  failure_of (ok _) = none
  failure_of (err e) = some e

  -- The hook of NewDependentResourceWatcher.
  unfoldable pub dependent_watcher : kit.Controller → PostHook S
  unfolding run_hook
  dependent_watcher c owner rel s =
      let (r, w) =
        run_hook (mgr.watch_lib c) mgr.get_rest_mapper owner rel
          (record { outside = s; watches = mgr.read_watches c s }) in
      ((failure_of r, owner), mgr.write_watches c w.watches w.outside)

  abbrev pub or_else : {A : Type 0} → Option A → A → A
  or_else none a = a
  or_else (some b) a = b

  unfoldable pub default_action_client_getter : Result (Unstructured → Exec S (ActionInterface S))
  unfolding new_action_config_getter new_action_client_getter client_for action_config_for
  default_action_client_getter =
      elim (new_action_config_getter conf mgr.get_config mgr.get_rest_mapper []) [
        | err e ↦ err (wrap "creating action config getter" e)
        | ok acg ↦ elim (new_action_client_getter conf (action_config_for conf acg) []) [
          | err e ↦ err (message "creating action client getter")
          | ok getter ↦ ok (client_for conf mgr.helm_over mgr.render getter)
        ]
      ]

  -- The defaults but for the action client getter.
  abbrev pub filled :
      String → Settings kit S → (Unstructured → Exec S (ActionInterface S)) → Settings kit S
  filled controller_name r getter = record r {
    client = some (or_else r.client mgr.get_client);
    log = some (or_else r.log mgr.default_log);
    action_client_getter = some getter;
    event_recorder = some (or_else r.event_recorder (mgr.get_event_recorder_for controller_name));
    value_translator = some (or_else r.value_translator default_translator);
    value_mapper = some (or_else r.value_mapper default_mapper);
    wait_for_deletion_timeout =
        if is_zero r.wait_for_deletion_timeout
        then pos default_wait_for_deletion_timeout
        else r.wait_for_deletion_timeout;
    max_release_history = some (or_else r.max_release_history (pos default_max_release_history));
  }

  unfoldable pub add_defaults : String → Settings kit S → Result (Settings kit S)
  unfolding default_action_client_getter default_translator default_mapper
  add_defaults controller_name r = elim r.action_client_getter [
    | some getter ↦ ok (filled controller_name r getter)
    | none ↦ elim default_action_client_getter [
      | err e ↦ err e
      | ok getter ↦ ok (filled controller_name r getter)
    ]
  ]

  unfoldable pub setup_scheme : GroupVersionKind → S → S
  setup_scheme gvk s = mgr.add_to_group_version gvk.group gvk.version (mgr.add_known_type gvk s)

  unfoldable pub selector_predicates : kit.LabelSelector → Result (List mgr.Predicate)
  selector_predicates selector =
      if ltb 0 (mgr.selector_size selector)
      then elim (mgr.label_selector_predicate selector) [ err e ↦ err e | ok p ↦ ok (p ∷ []) ]
      else ok []

  unfoldable pub setup_watches :
      GroupVersionKind → Settings kit S → kit.Controller → Exec S (Settings kit S)
  unfolding selector_predicates dependent_watcher
  setup_watches gvk r c = do
    preds ← lift (selector_predicates r.label_selector)
    mgr.watch c (primary gvk preds)
    mgr.watch c (owned_secrets gvk preds)
    (λ s. if r.skip_dependent_watches then (ok r, s) else (
      ok (record r { post_hooks = dependent_watcher c ∷ r.post_hooks }),
      mgr.write_watches c [] s,
    ))

  unfoldable pub run_setup_funcs :
      List (kit.Controller → Exec S (Unit {0})) → kit.Controller → Exec S (Unit {0})
  run_setup_funcs [] c = pure tt
  run_setup_funcs (f ∷ fs) c = do
    on_error (λ e. message "failed to execute custom controller setup function") (f c)
    run_setup_funcs fs c

  -- New has made sure that there is a kind; to read through nil would be a panic.
  abbrev pub kind_of : Settings kit S → Result GroupVersionKind
  kind_of r = elim r.gvk [ none ↦ err (panic "nil pointer dereference") | some gvk ↦ ok gvk ]

  unfoldable pub setup_with_manager : Settings kit S → Exec S (Settings kit S)
  unfolding add_defaults setup_scheme setup_watches run_setup_funcs
  setup_with_manager r = do
    gvk ← lift (kind_of r)
    filled_in ← lift (add_defaults (mgr.to_lower gvk.kind <> "-controller") r)
    (λ s. (ok tt, if r.skip_primary_gvk_scheme_registration then s else setup_scheme gvk s))
    c ←
        mgr.new_controller (mgr.to_lower gvk.kind <> "-controller")
          filled_in.max_concurrent_reconciles
    ready ← setup_watches gvk filled_in c
    run_setup_funcs ready.controller_setup_funcs c
    pure ready

-- The reconciler as Reconcile reads it, once nothing that it calls is nil: the client,
-- the log and the event recorder must be set too. Its numbers are not
-- negative then.
unfoldable pub as_reconciler :
    {kit : Kit} {S : Type 0}
    → (String → String)
    → ParseInto
    → (Chart → Values → Result Values)
    → (Error → String)
    → Settings kit S
    → Option (Reconciler S)
as_reconciler expand_env parse_into coalesce_values error_text r =
    if not (is_some r.client && is_some r.log && is_some r.event_recorder)
    then none
    else elim r.action_client_getter [
      | none ↦ none
      | some getter ↦ elim r.value_translator [
        | none ↦ none
        | some translate ↦ elim r.value_mapper [
          | none ↦ none
          | some map_values ↦ elim r.chrt [
            | none ↦ none
            | some chrt ↦ elim r.max_release_history [
              | none ↦ none
              | some max_history ↦ some (record {
                action_client_for = getter;
                translate = translate;
                map_values = map_values;
                pre_hooks = r.pre_hooks;
                post_hooks = r.post_hooks;
                chrt = chrt;
                override_values = r.override_values;
                reconcile_period = pos_part r.reconcile_period;
                max_release_history = pos_part max_history;
                pause_handler = r.pause_handler;
                install_annotations = r.maps.install_annotations;
                upgrade_annotations = r.maps.upgrade_annotations;
                uninstall_annotations = r.maps.uninstall_annotations;
                expand_env = expand_env;
                parse_into = parse_into;
                coalesce_values = coalesce_values;
                error_text = error_text;
              })
            ]
          ]
        ]
      ]
    ]
