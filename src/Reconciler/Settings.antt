-- ===== src/Reconciler/Settings.antt =====
-- The fields of the reconciler before SetupWithManager, its options, and New
-- (pkg/reconciler/reconciler.go). A field that was not set is `none`, or the zero value.
pub mod Valid
use helm_operator_plugins.Object.{
  object, end, Values, Chart, GroupVersionKind, absent, Unstructured,
}
use helm_operator_plugins.Client.{OptionFor, apply_options}
use helm_operator_plugins.Client.Actions.{ActionInterface}
use helm_operator_plugins.SpecValues.{ParseInto, Mapper, Translator, apply_overrides}
use helm_operator_plugins.Annotation.{AnnotationMaps, setup_annotation_maps}
use helm_operator_plugins.Reconciler.{PreHook, PostHook, PauseReconcileHandlerFunc}
use helm_operator_plugins.Exec.{Exec}
use helm_operator_plugins.Prelude.{
  if◌then◌else◌, Dict, lookup, ℤ, pos, is_negative, is_positive, Error, message, Result, ok, err,
  String, Bool, false, Option, none, some, List, [], ◌∷◌, ◌++◌, ◌==◌,
}

-- Types of controller-runtime, client-go and logr that are passed on, and the empty selector.
pub record Kit : Type 1 where
  pub Client : Type 0
  pub EventRecorder : Type 0
  pub Logger : Type 0
  pub LabelSelector : Type 0
  pub Controller : Type 0
  pub no_selector : LabelSelector

module _ (kit : Kit) (S : Type 0) where
  pub record Settings : Type 0 where
    pub client : Option kit.Client
    pub action_client_getter : Option (Unstructured → Exec S (ActionInterface S))
    pub value_translator : Option Translator
    pub value_mapper : Option Mapper
    pub event_recorder : Option kit.EventRecorder
    pub pre_hooks : List (PreHook S)
    pub post_hooks : List (PostHook S)
    pub log : Option kit.Logger
    pub gvk : Option GroupVersionKind
    pub chrt : Option Chart
    pub label_selector : kit.LabelSelector
    pub override_values : Dict String
    pub skip_dependent_watches : Bool
    pub max_concurrent_reconciles : ℤ
    pub reconcile_period : ℤ
    pub wait_for_deletion_timeout : ℤ
    pub max_release_history : Option ℤ
    pub skip_primary_gvk_scheme_registration : Bool
    pub controller_setup_funcs : List (kit.Controller → Exec S (Unit {0}))
    pub pause_handler : Option (PauseReconcileHandlerFunc S)
    pub maps : AnnotationMaps

  abbrev pub fresh_settings : Settings
  fresh_settings = record {
    client = none;
    action_client_getter = none;
    value_translator = none;
    value_mapper = none;
    event_recorder = none;
    pre_hooks = [];
    post_hooks = [];
    log = none;
    gvk = none;
    chrt = none;
    label_selector = kit.no_selector;
    override_values = [];
    skip_dependent_watches = false;
    max_concurrent_reconciles = pos 0;
    reconcile_period = pos 0;
    wait_for_deletion_timeout = pos 0;
    max_release_history = none;
    skip_primary_gvk_scheme_registration = false;
    controller_setup_funcs = [];
    pause_handler = none;
    maps = setup_annotation_maps;
  }

  unfoldable pub with_client : kit.Client → OptionFor Settings
  with_client cl r = ok (record r { client = some cl })

  unfoldable pub with_action_client_getter :
      (Unstructured → Exec S (ActionInterface S)) → OptionFor Settings
  with_action_client_getter getter r = ok (record r { action_client_getter = some getter })

  unfoldable pub with_event_recorder : kit.EventRecorder → OptionFor Settings
  with_event_recorder er r = ok (record r { event_recorder = some er })

  unfoldable pub with_log : kit.Logger → OptionFor Settings
  with_log log r = ok (record r { log = some log })

  unfoldable pub with_group_version_kind : GroupVersionKind → OptionFor Settings
  with_group_version_kind gvk r = ok (record r { gvk = some gvk })

  unfoldable pub with_chart : Chart → OptionFor Settings
  with_chart chrt r = ok (record r { chrt = some chrt })

  -- The overrides are tried on an object with an empty spec.
  unfoldable pub with_override_values :
      (String → String) → ParseInto → Dict String → OptionFor Settings
  unfolding apply_overrides
  with_override_values expand_env parse_into overrides r =
      let (failure, _) = apply_overrides expand_env parse_into overrides (record {
        gvk = record { group = ""; version = ""; kind = "" };
        name = "";
        namespace = "";
        annotations = [];
        owner_references = [];
        finalizers = [];
        deletion_timestamp = none;
        spec = some (object end);
        status = absent;
      }) in
      elim failure [ some e ↦ err e | none ↦ ok (record r { override_values = overrides }) ]

  unfoldable pub skip_dependent_watches : Bool → OptionFor Settings
  skip_dependent_watches skip r = ok (record r { skip_dependent_watches = skip })

  unfoldable pub skip_primary_gvk_scheme_registration : Bool → OptionFor Settings
  skip_primary_gvk_scheme_registration skip r =
      ok (record r { skip_primary_gvk_scheme_registration = skip })

  unfoldable pub with_max_concurrent_reconciles : ℤ → OptionFor Settings
  with_max_concurrent_reconciles value r =
      if is_positive value
      then ok (record r { max_concurrent_reconciles = value })
      else err (message "maxConcurrentReconciles must be at least 1")

  unfoldable pub with_wait_for_deletion_timeout : ℤ → OptionFor Settings
  with_wait_for_deletion_timeout timeout r =
      if is_positive timeout
      then ok (record r { wait_for_deletion_timeout = timeout })
      else err (message "wait for deletion timeout must be a positive value")

  unfoldable pub with_reconcile_period : ℤ → OptionFor Settings
  with_reconcile_period rp r =
      if is_negative rp
      then err (message "reconcile period must not be negative")
      else ok (record r { reconcile_period = rp })

  unfoldable pub with_max_release_history : ℤ → OptionFor Settings
  with_max_release_history max_history r =
      if is_negative max_history
      then err (message "maximum Helm release history size must not be negative")
      else ok (record r { max_release_history = some max_history })

  -- WithInstallAnnotations, WithUpgradeAnnotations and WithUninstallAnnotations, which change the
  -- annotation maps alone
  unfoldable pub on_maps : OptionFor AnnotationMaps → OptionFor Settings
  on_maps o r = elim (o r.maps) [ err e ↦ err e | ok m ↦ ok (record r { maps = m }) ]

  unfoldable pub with_pause_reconcile_handler : PauseReconcileHandlerFunc S → OptionFor Settings
  with_pause_reconcile_handler handler r = ok (record r { pause_handler = some handler })

  unfoldable pub pause_reconcile_if_annotation_true : String → PauseReconcileHandlerFunc S
  pause_reconcile_if_annotation_true name obj s = elim (lookup name obj.annotations) [
    | none ↦ ((false, none), s)
    | some v ↦ ((v == "true", none), s)
  ]

  unfoldable pub with_pre_hook : PreHook S → OptionFor Settings
  with_pre_hook h r = ok (record r { pre_hooks = r.pre_hooks ++ (h ∷ []) })

  unfoldable pub with_post_hook : PostHook S → OptionFor Settings
  with_post_hook h r = ok (record r { post_hooks = r.post_hooks ++ (h ∷ []) })

  unfoldable pub with_value_translator : Translator → OptionFor Settings
  with_value_translator t r = ok (record r { value_translator = some t })

  unfoldable pub with_value_mapper : Mapper → OptionFor Settings
  with_value_mapper m r = ok (record r { value_mapper = some m })

  unfoldable pub with_selector : kit.LabelSelector → OptionFor Settings
  with_selector s r = ok (record r { label_selector = s })

  unfoldable pub with_controller_setup_func :
      (kit.Controller → Exec S (Unit {0})) → OptionFor Settings
  with_controller_setup_func f r =
      ok (record r { controller_setup_funcs = r.controller_setup_funcs ++ (f ∷ []) })

  unfoldable pub validate : Settings → Option Error
  validate r = elim r.gvk [
    | none ↦ some (message "gvk must not be nil")
    | some _ ↦ elim r.chrt [ none ↦ some (message "chart must not be nil") | some _ ↦ none ]
  ]

  unfoldable pub new_reconciler : List (OptionFor Settings) → Result Settings
  unfolding apply_options validate
  new_reconciler opts = elim (apply_options opts fresh_settings) [
    | err e ↦ err e
    | ok r ↦ elim (validate r) [ some e ↦ err e | none ↦ ok r ]
  ]
