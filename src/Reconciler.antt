-- ===== src/Reconciler.antt =====
-- pkg/reconciler/reconciler.go: the reconciler's settings and what it is given.
pub mod Actions
pub mod Loop
pub mod Settings
pub mod Setup
pub mod Lifecycle
use helm_operator_plugins.Object.{Values, Chart, Unstructured}
use helm_operator_plugins.Client.{UninstallAction, OptionFor}
use helm_operator_plugins.Client.Options.{InstallAction, UpgradeAction}
use helm_operator_plugins.Client.Actions.{ActionInterface}
use helm_operator_plugins.SpecValues.{ParseInto, Mapper, Translator}
use helm_operator_plugins.Exec.{Exec}
use helm_operator_plugins.Release.{Release}
use helm_operator_plugins.Prelude.{
  Dict, lookup, Error, Result, ℕ, String, Bool, Option, none, some, List, [], ◌∷◌,
}

-- annotation.Install, annotation.Upgrade and annotation.Uninstall: the option for a text that the
-- custom resource carries under the annotation's name
abbrev pub Annotation : Type 0 → Type 0
Annotation A = String → OptionFor A

-- hook.PreHook and hook.PostHook; a hook may change the object, and the values before an action.
abbrev pub PreHook : Type 0 → Type 0
PreHook S = Unstructured → Values → S → (Option Error × Unstructured × Values) × S

abbrev pub PostHook : Type 0 → Type 0
PostHook S = Unstructured → Release → S → (Option Error × Unstructured) × S

-- The pause handler of WithPauseReconcileHandler: whether to pause, and an error.
abbrev pub PauseReconcileHandlerFunc : Type 0 → Type 0
PauseReconcileHandlerFunc S = Unstructured → S → (Bool × Option Error) × S

-- The settings, once New and SetupWithManager have filled them in. Maps are lists, since Go does
-- not fix the order in which it visits a map.
pub record Reconciler (S : Type 0) : Type 0 where
  pub action_client_for : Unstructured → Exec S (ActionInterface S)
  pub translate : Translator
  pub map_values : Mapper
  pub pre_hooks : List (PreHook S)
  pub post_hooks : List (PostHook S)
  pub chrt : Chart
  pub override_values : Dict String
  pub reconcile_period : ℕ
  pub max_release_history : ℕ
  pub pause_handler : Option (PauseReconcileHandlerFunc S)
  pub install_annotations : Dict (Annotation InstallAction)
  pub upgrade_annotations : Dict (Annotation UpgradeAction)
  pub uninstall_annotations : Dict (Annotation UninstallAction)
  -- os.ExpandEnv, strvals.ParseInto, chartutil.CoalesceValues, and the text of an error
  pub expand_env : String → String
  pub parse_into : ParseInto
  pub coalesce_values : Chart → Values → Result Values
  pub error_text : Error → String

abbrev pub uninstall_finalizer : String
uninstall_finalizer = "uninstall-helm-release"

pub data ReleaseState : Type 0 where
  needs_install needs_upgrade unchanged : ReleaseState

-- The loops over the annotations of an action.
unfoldable pub annotation_options :
    {A : Type 0} → Dict (Annotation A) → Dict String → List (OptionFor A)
annotation_options [] annotations = []
annotation_options ((name, annot) ∷ more) annotations = elim (lookup name annotations) [
  | none ↦ annotation_options more annotations
  | some v ↦ annot v ∷ annotation_options more annotations
]
