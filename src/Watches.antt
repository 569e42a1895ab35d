-- ===== src/Watches.antt =====
-- pkg/watches/watches.go: the entries of the watches file, checked and with their defaults.
pub mod Loaded
mod Examples
use helm_operator_plugins.Object.{Chart, GroupVersionKind}
use helm_operator_plugins.Hook.{is_watched}
use helm_operator_plugins.Prelude.{
  if◌then◌else◌, Dict, insert, ℤ, Error, message, wrap, Result, ok, err, String, Bool, true, Option,
  none, some, List, [], ◌∷◌, ◌==◌,
}

-- A pointer that was not set is `none`; `Selector` stands for metav1.LabelSelector.
pub record Watch (Selector : Type 0) : Type 0 where
  pub gvk : GroupVersionKind
  pub chart_path : String
  pub watch_dependent_resources : Option Bool
  pub override_values : Option (Dict String)
  pub reconcile_period : Option ℤ
  pub max_concurrent_reconciles : Option ℤ
  pub selector : Option Selector
  pub chart : Option Chart

-- sigs.k8s.io/yaml, helm's chart loader, os.ExpandEnv, text/template with the functions of sprig,
-- and the empty selector.
pub record WatchesLib (Selector : Type 0) : Type 1 where
  pub Template : Type 0
  pub unmarshal : String → Result (List (Watch Selector))
  pub load_chart : String → Result Chart
  pub expand_env : String → String
  pub parse_template : String → String → Result Template
  pub execute : Template → Result String
  pub empty_selector : Selector

unfoldable pub verify_gvk : GroupVersionKind → Option Error
verify_gvk gvk =
    if gvk.version == ""
    then some (message "version must not be empty")
    else if gvk.kind == ""
    then some (message "kind must not be empty")
    else none

module _ {Selector : Type 0} (lib : WatchesLib Selector) where
  -- The loop of expandOverrideValues, in any order of the map.
  unfoldable pub expand_all : Dict String → Dict String → Result (Dict String)
  expand_all [] out = ok out
  expand_all ((k, v) ∷ more) out = elim (lib.parse_template k (lib.expand_env v)) [
    | err e ↦ err (message "invalid template string")
    | ok tmpl ↦ elim (lib.execute tmpl) [
      | err e ↦ err (message "failed to execute template")
      | ok expanded ↦ expand_all more (insert k expanded out)
    ]
  ]

  unfoldable pub expand_override_values : Option (Dict String) → Result (Option (Dict String))
  unfolding expand_all
  expand_override_values none = ok none
  expand_override_values (some values) = elim (expand_all values []) [
    | err e ↦ err e
    | ok out ↦ ok (some out)
  ]

  -- An entry with its defaults.
  abbrev pub completed : Watch Selector → Chart → Option (Dict String) → Watch Selector
  completed w cl values = record w {
    chart = some cl;
    watch_dependent_resources =
        some (elim w.watch_dependent_resources [ none ↦ true | some b ↦ b ]);
    selector = some (elim w.selector [ none ↦ lib.empty_selector | some s ↦ s ]);
    override_values = values;
  }

  -- One round of the loop of LoadReader, given the kinds of the entries before.
  unfoldable pub load_watch : List GroupVersionKind → Watch Selector → Result (Watch Selector)
  unfolding verify_gvk expand_override_values
  load_watch seen w = elim (verify_gvk w.gvk) [
    | some e ↦ err (wrap "invalid GVK" e)
    | none ↦ elim (lib.load_chart w.chart_path) [
      | err e ↦ err (wrap "invalid chart" e)
      | ok cl ↦
          if is_watched w.gvk seen
          then err (message "duplicate GVK")
          else elim (expand_override_values w.override_values) [
            | err e ↦ err (message "failed to expand override values")
            | ok values ↦ ok (completed w cl values)
          ]
    ]
  ]

  unfoldable pub load_watches :
      List GroupVersionKind → List (Watch Selector) → Result (List (Watch Selector))
  unfolding load_watch
  load_watches seen [] = ok []
  load_watches seen (w ∷ ws) = elim (load_watch seen w) [
    | err e ↦ err e
    | ok loaded ↦ elim (load_watches (w.gvk ∷ seen) ws) [
      | err e ↦ err e
      | ok rest ↦ ok (loaded ∷ rest)
    ]
  ]

  -- LoadReader, on what io.ReadAll gives
  unfoldable pub load_reader : Result String → Result (List (Watch Selector))
  unfolding load_watches
  load_reader (err e) = err e
  load_reader (ok b) = elim (lib.unmarshal b) [
    | err e ↦ err e
    | ok watches ↦ load_watches [] watches
  ]

  -- Load, on what os.Open and the read give and what Close answers
  unfoldable pub load : Result (Result String) → Option Error → Result (List (Watch Selector))
  unfolding load_reader
  load (err e) closed = err (wrap "could not open watches file" e)
  load (ok reader) (some e) = err (wrap "could not close watches file" e)
  load (ok reader) none = load_reader reader
