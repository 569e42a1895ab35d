-- ===== src/Reconciler/Setup/Filled.antt =====
-- What SetupWithManager leaves in the reconciler.
use helm_operator_plugins.Object.{Values, Chart, GroupVersionKind, Unstructured}
use helm_operator_plugins.Client.{OptionFor}
use helm_operator_plugins.Client.Actions.{ActionInterface}
use helm_operator_plugins.Client.Config.{ConfigLib}
use helm_operator_plugins.SpecValues.{
  default_wait_for_deletion_timeout, default_mapper, default_translator, ParseInto,
}
use helm_operator_plugins.Reconciler.Settings.{Kit, Settings, validate, new_reconciler}
use helm_operator_plugins.Reconciler.Setup.{
  Manager, dependent_watcher, or_else, default_action_client_getter, filled, add_defaults,
  setup_scheme, setup_watches, kind_of, setup_with_manager, as_reconciler,
}
use helm_operator_plugins.Exec.{Exec}
use helm_operator_plugins.Prelude.{
  if◌then◌else◌, Option-cases, is_some, pos, is_zero, Error, Result, ok, Result-cases, String, ◌<>◌,
  ◌≡◌, refl, sym, ap, subst, ◌∙◌, inl, inr, true, Option, none, some, List, ◌∷◌, arith,
}

module _ {kit : Kit} {conf : ConfigLib} {S : Type 0} (mgr : Manager kit conf S) where
  -- The getter is the one that was set, if one was, and the default one if not.
  abbrev pub Keeps :
      Option (Unstructured → Exec S (ActionInterface S))
      → (Unstructured → Exec S (ActionInterface S))
      → Type 0
  Keeps none getter = default_action_client_getter mgr ≡ ok getter
  Keeps (some g) getter = g ≡ getter

  Keeps-some :
      (o : Option (Unstructured → Exec S (ActionInterface S)))
      (getter : Unstructured → Exec S (ActionInterface S))
      → o ≡ some getter
      → Keeps o getter
  Keeps-some none getter e = cc
  Keeps-some (some g) getter e = cc

  Keeps-none :
      (o : Option (Unstructured → Exec S (ActionInterface S)))
      (getter : Unstructured → Exec S (ActionInterface S))
      → o ≡ none
      → default_action_client_getter mgr ≡ ok getter
      → Keeps o getter
  Keeps-none none getter e d = d
  Keeps-none (some g) getter e d = cc

  pub add_defaults-eq-ok :
      (name : String) (r r' : Settings kit S)
      → add_defaults mgr name r ≡ ok r'
      → (getter : Unstructured → Exec S (ActionInterface S)) × (r' ≡ filled mgr name r getter)
        × Keeps r.action_client_getter getter
  unfolding add_defaults
  add_defaults-eq-ok name r r' h = elim (Option-cases r.action_client_getter) [
    | inr (g, e) ↦ (g, ground (arith, e, h), Keeps-some r.action_client_getter g e)
    | inl e ↦ elim (Result-cases (default_action_client_getter mgr)) [
      | inl (g, d) ↦ (g, ground (arith, e, d, h), Keeps-none r.action_client_getter g e d)
      | inr (x, d) ↦ ground (arith, e, d, h)
    ]
  ]

  pub setup_watches-eq-ok :
      (gvk : GroupVersionKind) (r r' : Settings kit S) (c : kit.Controller) (s t : S)
      → setup_watches mgr gvk r c s ≡ (ok r', t)
      → r' ≡ record r {
        post_hooks =
            if r.skip_dependent_watches
            then r.post_hooks
            else dependent_watcher mgr c ∷ r.post_hooks;
      }
  unfolding setup_watches
  setup_watches-eq-ok gvk r r' c s t h = ground (arith, h)

  -- The dependent watcher stands first, unless it is to be skipped.
  abbrev pub watching : kit.Controller → Settings kit S → Settings kit S
  watching c r = record r {
    post_hooks =
        if r.skip_dependent_watches then r.post_hooks else dependent_watcher mgr c ∷ r.post_hooks;
  }

  pub set_up :
      (r ready : Settings kit S) (s t : S)
      → setup_with_manager mgr r s ≡ (ok ready, t)
      → (gvk : GroupVersionKind) × (r.gvk ≡ some gvk)
        × (getter : Unstructured → Exec S (ActionInterface S)) × (c : kit.Controller) × Keeps
            r.action_client_getter getter
        × (ready ≡ watching c (filled mgr (mgr.to_lower gvk.kind <> "-controller") r getter))
  unfolding setup_with_manager
  set_up r ready s t h = elim (Result-cases (kind_of mgr r)) [
    | inr (x, e) ↦ ground (arith, e, h)
    | inl (gvk, e) ↦
        let name = mgr.to_lower gvk.kind <> "-controller" in
        elim (Result-cases (add_defaults mgr name r)) [
          | inr (x, d) ↦ ground (arith, e, d, h)
          | inl (f, d) ↦
              let (getter, same, kept) = add_defaults-eq-ok name r f d in
              let s' =
                if r.skip_primary_gvk_scheme_registration then s else setup_scheme mgr gvk s in
              let q = mgr.new_controller name f.max_concurrent_reconciles s' in
              elim (Result-cases q.0) [
                | inr (x, m) ↦ ground (arith, e, d, m, h)
                | inl (c, m) ↦
                    let watched = setup_watches mgr gvk f c q.1 in
                    elim (Result-cases watched.0) [
                      | inr (x, w) ↦ ground (arith, e, d, m, w, h)
                      | inl (g, w) ↦
                          let r_eq =
                            setup_watches-eq-ok gvk f g c q.1 watched.1 (ground (arith, w)) in
                          let last : ready ≡ g = ground (arith, e, d, m, w, h) in
                          (
                            gvk,
                            ground (arith, e),
                            getter,
                            c,
                            kept,
                            last ∙ r_eq ∙ ap (watching c) same,
                          )
                    ]
              ]
        ]
  ]

  -- What was set stands, and the default where nothing was.
  abbrev pub SetOr : {A : Type 0} → Option A → A → Option A → Type 0
  SetOr none default left = left ≡ some default
  SetOr (some a) default left = left ≡ some a

  or_else-SetOr : {A : Type 0} (o : Option A) (a : A) → SetOr o a (some (or_else mgr o a))
  or_else-SetOr none a = refl
  or_else-SetOr (some b) a = refl

  -- The reconciler that SetupWithManager has made of `r`.
  abbrev pub IsSetUp : Settings kit S → Settings kit S → Type 0
  IsSetUp r ready =
      (gvk : GroupVersionKind) × (getter : Unstructured → Exec S (ActionInterface S))
      × (c : kit.Controller) × (r.gvk ≡ some gvk)
      × SetOr r.client mgr.get_client ready.client
      × SetOr r.log mgr.default_log ready.log
      × SetOr r.event_recorder (mgr.get_event_recorder_for (mgr.to_lower gvk.kind <> "-controller"))
          ready.event_recorder
      × SetOr r.value_translator default_translator ready.value_translator
      × SetOr r.value_mapper default_mapper ready.value_mapper
      × SetOr r.max_release_history (pos 10) ready.max_release_history
      × (ready.action_client_getter ≡ some getter)
      × Keeps r.action_client_getter getter
      × (ready ≡ record r {
        client = ready.client;
        log = ready.log;
        event_recorder = ready.event_recorder;
        value_translator = ready.value_translator;
        value_mapper = ready.value_mapper;
        max_release_history = ready.max_release_history;
        action_client_getter = ready.action_client_getter;
        wait_for_deletion_timeout =
            if is_zero r.wait_for_deletion_timeout
            then pos default_wait_for_deletion_timeout
            else r.wait_for_deletion_timeout;
        post_hooks =
            if r.skip_dependent_watches
            then r.post_hooks
            else dependent_watcher mgr c ∷ r.post_hooks;
      })

  -- If SetupWithManager succeeds, a client, log, event recorder, translator, mapper, history limit
  -- or action client getter that was set stands, and the default stands where nothing was set, the
  -- event recorder under the name of the controller; a deletion timeout of zero becomes the default
  -- one; and unless dependent watches are to be skipped, the watcher of dependent resources stands
  -- before the post-hooks that were there. Nothing else of the reconciler changes.
  pub setup_with_manager_lem :
      (r ready : Settings kit S) (s t : S)
      → setup_with_manager mgr r s ≡ (ok ready, t)
      → IsSetUp r ready
  setup_with_manager_lem r ready s t h =
      let (gvk, set, getter, c, kept, same) = set_up r ready s t h in
      let name = mgr.to_lower gvk.kind <> "-controller" in
      subst (IsSetUp r) (sym same) (
        gvk,
        getter,
        c,
        set,
        or_else-SetOr r.client mgr.get_client,
        or_else-SetOr r.log mgr.default_log,
        or_else-SetOr r.event_recorder (mgr.get_event_recorder_for name),
        or_else-SetOr r.value_translator default_translator,
        or_else-SetOr r.value_mapper default_mapper,
        or_else-SetOr r.max_release_history (pos 10),
        refl,
        kept,
        refl,
      )

  ready_kept :
      (r ready : Settings kit S) (name : String) (c : kit.Controller)
      (getter : Unstructured → Exec S (ActionInterface S)) (expand_env : String → String)
      (parse_into : ParseInto) (coalesce_values : Chart → Values → Result Values)
      (error_text : Error → String)
      → is_some r.chrt ≡ true
      → ready ≡ watching c (filled mgr name r getter)
      → is_some (as_reconciler expand_env parse_into coalesce_values error_text ready) ≡ true
  unfolding as_reconciler
  ready_kept r ready name c getter expand_env parse_into coalesce_values error_text set same =
      rw same (ground (arith, set))

  -- A reconciler that New has returned and for which SetupWithManager has succeeded can reconcile:
  -- no client, log, event recorder, function, chart or number that Reconcile reads is nil.
  pub new-setup_runs :
      (opts : List (OptionFor (Settings kit S))) (r ready : Settings kit S) (s t : S)
      (expand_env : String → String) (parse_into : ParseInto)
      (coalesce_values : Chart → Values → Result Values) (error_text : Error → String)
      → new_reconciler kit S opts ≡ ok r
      → setup_with_manager mgr r s ≡ (ok ready, t)
      → is_some (as_reconciler expand_env parse_into coalesce_values error_text ready) ≡ true
  unfolding new_reconciler validate
  new-setup_runs opts r ready s t expand_env parse_into coalesce_values error_text made done =
      let (gvk, _, getter, c, _, same) = set_up r ready s t done in
      ready_kept r ready (mgr.to_lower gvk.kind <> "-controller") c getter expand_env parse_into
        coalesce_values error_text (ground (arith, made)) same
