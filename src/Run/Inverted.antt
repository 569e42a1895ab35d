-- ===== src/Run/Inverted.antt =====
-- What the entries of the watches file become.
use helm_operator_plugins.Object.{Chart, GroupVersionKind, Unstructured}
use helm_operator_plugins.Client.{OptionFor, apply_options}
use helm_operator_plugins.Client.Config.{ConfigLib}
use helm_operator_plugins.Client.Actions.{ActionInterface}
use helm_operator_plugins.Flags.{Flags}
use helm_operator_plugins.Watches.{Watch}
use helm_operator_plugins.Annotation.{
  default_install_annotations, default_upgrade_annotations, default_uninstall_annotations,
  AnnotationMaps, with_install_annotations, with_upgrade_annotations, with_uninstall_annotations,
}
use helm_operator_plugins.SpecValues.{ParseInto}
use helm_operator_plugins.Reconciler.{PostHook}
use helm_operator_plugins.Reconciler.Settings.{
  Kit, Settings, fresh_settings, with_group_version_kind, with_chart, with_override_values,
  skip_dependent_watches, with_max_concurrent_reconciles, with_reconcile_period, on_maps,
  with_selector, new_reconciler,
}
use helm_operator_plugins.Reconciler.Setup.{Manager, dependent_watcher, setup_with_manager}
use helm_operator_plugins.Reconciler.Setup.Filled.{set_up}
use helm_operator_plugins.Run.{watch_options, reconciler_for}
use helm_operator_plugins.Exec.{Exec}
use helm_operator_plugins.Prelude.{
  if◌then◌else◌, Option-cases, Dict, ℤ, ok, Result-cases, String, ◌≡◌, sym, ap, ◌∙◌, inl, inr, Bool,
  Option, none, some, List, [], ◌∷◌, arith,
}

module _ (kit : Kit) (S : Type 0) (expand_env : String → String) (parse_into : ParseInto) where
  -- The fields that the entries and the flags decide.
  abbrev Core : Type 0
  Core =
      Bool
      × ℤ
      × ℤ
      × Option GroupVersionKind
      × Option Chart
      × List (PostHook S)
      × Option (Unstructured → Exec S (ActionInterface S))
      × List (kit.Controller → Exec S (Unit {0}))

  abbrev core : Settings kit S → Core
  core r = (
    r.skip_dependent_watches, r.reconcile_period, r.max_concurrent_reconciles, r.gvk, r.chrt,
    r.post_hooks, r.action_client_getter, r.controller_setup_funcs,
  )

  on_maps-core :
      (o : OptionFor AnnotationMaps) (a b : Settings kit S)
      → on_maps kit S o a ≡ ok b
      → core b ≡ core a
  unfolding on_maps
  on_maps-core o a b h = ground (arith, h)

  overrides-core :
      (m : Dict String) (a b : Settings kit S)
      → with_override_values kit S expand_env parse_into m a ≡ ok b
      → core b ≡ core a
  unfolding with_override_values
  overrides-core m a b h = ground (arith, h)

  first_option :
      (o : OptionFor (Settings kit S)) (os : List (OptionFor (Settings kit S)))
      (a r : Settings kit S)
      → apply_options (o ∷ os) a ≡ ok r
      → (b : Settings kit S) × (o a ≡ ok b) × (apply_options os b ≡ ok r)
  unfolding apply_options
  first_option o os a r h = elim (Result-cases (o a)) [
    | inl (b, e) ↦ (b, e, ground (arith, e, h))
    | inr (x, e) ↦ ground (arith, e, h)
  ]

  last_maps :
      (o p q : OptionFor AnnotationMaps) (a r : Settings kit S)
      → apply_options (on_maps kit S o ∷ on_maps kit S p ∷ on_maps kit S q ∷ []) a ≡ ok r
      → core r ≡ core a
  unfolding apply_options
  last_maps o p q a r h =
      let (b, e, h1) =
        first_option (on_maps kit S o) (on_maps kit S p ∷ on_maps kit S q ∷ []) a r h in
      let (c, f, h2) = first_option (on_maps kit S p) (on_maps kit S q ∷ []) b r h1 in
      let (d, g, h3) = first_option (on_maps kit S q) [] c r h2 in
      let same : d ≡ r = ground (arith, h3) in
      ap core (sym same) ∙ on_maps-core q c d g ∙ on_maps-core p b c f ∙ on_maps-core o a b e

  numbers-core :
      (n m : ℤ) (os : List (OptionFor (Settings kit S))) (a r : Settings kit S)
      → apply_options
          (with_max_concurrent_reconciles kit S n ∷ with_reconcile_period kit S m ∷ os)
          a
        ≡ ok r
      → apply_options os (record a { max_concurrent_reconciles = n; reconcile_period = m }) ≡ ok r
  unfolding apply_options with_max_concurrent_reconciles with_reconcile_period
  numbers-core n m os a r h = ground (arith, h)

  watch_options-core :
      (f : Flags) (w : Watch kit.LabelSelector) (chrt : Chart) (selector : kit.LabelSelector)
      (b : Bool) (r : Settings kit S)
      → apply_options
          (watch_options kit S expand_env parse_into f w chrt selector b)
          (fresh_settings kit S)
        ≡ ok r
      → core r
        ≡ (b, f.reconcile_period, f.max_concurrent_reconciles, some w.gvk, some chrt, [], none, [])
  unfolding watch_options apply_options with_chart with_group_version_kind with_selector
      skip_dependent_watches
  watch_options-core f w chrt selector b r h =
      let begun = record (fresh_settings kit S) { chrt = some chrt; gvk = some w.gvk } in
      let values : Dict String = elim w.override_values [ none ↦ [] | some values ↦ values ] in
      let maps : List (OptionFor (Settings kit S)) =
        on_maps kit S (with_install_annotations default_install_annotations)
        ∷ on_maps kit S (with_upgrade_annotations default_upgrade_annotations)
        ∷ on_maps kit S (with_uninstall_annotations default_uninstall_annotations)
        ∷ [] in
      let numbers =
        with_max_concurrent_reconciles kit S f.max_concurrent_reconciles
        ∷ with_reconcile_period kit S f.reconcile_period
        ∷ maps in
      let (o, e, h1) =
        first_option (with_override_values kit S expand_env parse_into values)
          (with_selector kit S selector ∷ skip_dependent_watches kit S b ∷ numbers) begun r h in
      let chosen = record o { label_selector = selector; skip_dependent_watches = b } in
      let h2 = numbers-core f.max_concurrent_reconciles f.reconcile_period maps chosen r h1 in
      let last =
        last_maps (with_install_annotations default_install_annotations)
          (with_upgrade_annotations default_upgrade_annotations)
          (with_uninstall_annotations default_uninstall_annotations)
          (record chosen {
            max_concurrent_reconciles = f.max_concurrent_reconciles;
            reconcile_period = f.reconcile_period;
          })
          r h2 in
      let kept = overrides-core values begun o e in
      last
      ∙ ap
          (λ (c : Core).
            (b, f.reconcile_period, f.max_concurrent_reconciles, c.3, c.4, c.5, c.6, c.7))
          kept

  new_reconciler-eq-ok :
      (opts : List (OptionFor (Settings kit S))) (r : Settings kit S)
      → new_reconciler kit S opts ≡ ok r
      → apply_options opts (fresh_settings kit S) ≡ ok r
  unfolding new_reconciler
  new_reconciler-eq-ok opts r h = ground (arith, h)

  pub reconciler_for-core :
      (f : Flags) (w : Watch kit.LabelSelector) (b : Bool) (r : Settings kit S)
      → w.watch_dependent_resources ≡ some b
      → reconciler_for kit S expand_env parse_into f w ≡ ok r
      → core r
        ≡ (b, f.reconcile_period, f.max_concurrent_reconciles, some w.gvk, w.chart, [], none, [])
  unfolding reconciler_for
  reconciler_for-core f w b r set h = elim (Option-cases w.chart) [
    | inl e ↦ ground (arith, e, h)
    | inr (chrt, e) ↦ elim (Option-cases w.selector) [
      | inl s ↦ ground (arith, e, s, h)
      | inr (selector, s) ↦
          let made =
            new_reconciler-eq-ok (watch_options kit S expand_env parse_into f w chrt selector b) r
              (ground (arith, e, s, set, h)) in
          rw e (watch_options-core f w chrt selector b r made)
    ]
  ]

  -- A run that succeeds for an entry that Load has returned makes a reconciler that watches
  -- dependent resources, by its only post-hook, exactly if the entry says not to: the setting that
  -- says whether to watch is given to the option that says whether to skip. Its period and its
  -- number of concurrent reconciles are those of the flags, whatever the entry says; its kind and
  -- its chart are the entry's.
  pub watch_inverted :
      {conf : ConfigLib} (mgr : Manager kit conf S) (f : Flags) (w : Watch kit.LabelSelector)
      (b : Bool) (r ready : Settings kit S) (s t : S)
      → w.watch_dependent_resources ≡ some b
      → reconciler_for kit S expand_env parse_into f w ≡ ok r
      → setup_with_manager mgr r s ≡ (ok ready, t)
      → (c : kit.Controller) × (ready.post_hooks ≡ (if b then [] else dependent_watcher mgr c ∷ []))
        × (ready.reconcile_period ≡ f.reconcile_period)
        × (ready.max_concurrent_reconciles ≡ f.max_concurrent_reconciles)
        × (ready.gvk ≡ some w.gvk)
        × (ready.chrt ≡ w.chart)
  watch_inverted mgr f w b r ready s t set made done =
      let fields = reconciler_for-core f w b r set made in
      let (gvk, _, getter, c, _, same) = set_up mgr r ready s t done in
      let skips : r.skip_dependent_watches ≡ b = ap (λ (x : Core). x.0) fields in
      let hooks : r.post_hooks ≡ [] = ap (λ (x : Core). x.5) fields in
      (
        c,
        ap (λ x. x.post_hooks) same
            ∙ ap (λ d. if d then r.post_hooks else dependent_watcher mgr c ∷ r.post_hooks) skips
            ∙ ap (λ hs. if b then hs else dependent_watcher mgr c ∷ hs) hooks,
        ap (λ x. x.reconcile_period) same ∙ ap (λ (x : Core). x.1) fields,
        ap (λ x. x.max_concurrent_reconciles) same ∙ ap (λ (x : Core). x.2) fields,
        ap (λ x. x.gvk) same ∙ ap (λ (x : Core). x.3) fields,
        ap (λ x. x.chrt) same ∙ ap (λ (x : Core). x.4) fields,
      )
