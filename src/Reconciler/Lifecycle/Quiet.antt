-- ===== src/Reconciler/Lifecycle/Quiet.antt =====
-- The way from the values to the release leaves the finalizers of the resource alone.
use helm_operator_plugins.Object.{Values, GroupVersionKind, Unstructured}
use helm_operator_plugins.Cluster.{Cluster}
use helm_operator_plugins.Conditions.{irreconcilable}
use helm_operator_plugins.Status.{condition_false}
use helm_operator_plugins.Client.Actions.{ActionInterface}
use helm_operator_plugins.Updater.{Updater, update_status, ensure_condition}
use helm_operator_plugins.Reconciler.{
  PreHook, PostHook, Reconciler, ReleaseState, needs_install, needs_upgrade, unchanged,
  annotation_options,
}
use helm_operator_plugins.Reconciler.Actions.{
  ensure_deployed, dry_run_option, upgrade_options, get_release_state, report_failure, do_install,
  do_upgrade, do_reconcile, get_values,
}
use helm_operator_plugins.Reconciler.Loop.{
  no_values_updates, no_state_updates, Work, failing, run_pre_hooks, run_post_hooks, finish_release,
  after_action, run_action, reconcile_release,
}
use helm_operator_plugins.Reconciler.Lifecycle.{View, SameFinalizers, ClientTracks, Tracks}
use helm_operator_plugins.Release.{Release}
use helm_operator_plugins.Prelude.{
  Option-cases, All, Result, ok, err, Result-cases, ℕ, String, ◌≡◌, refl, sym, ap, subst, ◌∙◌, inl,
  inr, Option, none, some, List, [], ◌∷◌, ◌++◌, arith,
}

module _ {k : Cluster} {v : View k.State} {r : Reconciler k.State} {kind : GroupVersionKind}
    {namespace name : String} (tracks : Tracks k v r kind namespace name) (now : ℕ) where
  run_pre_hooks-SameFinalizers :
      (hs : List (PreHook k.State)) (o : Unstructured) (vals : Values) (s : k.State)
      → All
          (λ (h : PreHook k.State).
            (o : Unstructured) (vals : Values) (s : k.State) → SameFinalizers v s (h o vals s).1)
          hs
      → SameFinalizers v s (run_pre_hooks k r now hs o vals s).1
  unfolding run_pre_hooks
  run_pre_hooks-SameFinalizers [] o vals s keeps = refl
  run_pre_hooks-SameFinalizers (h ∷ hs) o vals s (one, keeps) =
      let ((_, o', vals'), t) = h o vals s in
      run_pre_hooks-SameFinalizers hs o' vals' t keeps ∙ one o vals s

  run_post_hooks-SameFinalizers :
      (hs : List (PostHook k.State)) (rel : Release) (o : Unstructured) (s : k.State)
      → All
          (λ (h : PostHook k.State).
            (o : Unstructured) (rel : Release) (s : k.State) → SameFinalizers v s (h o rel s).1)
          hs
      → SameFinalizers v s (run_post_hooks k r now hs rel o s).1
  unfolding run_post_hooks
  run_post_hooks-SameFinalizers [] rel o s keeps = refl
  run_post_hooks-SameFinalizers (h ∷ hs) rel o s (one, keeps) =
      let ((_, o'), t) = h o rel s in run_post_hooks-SameFinalizers hs rel o' t keeps ∙ one o rel s

  -- The object is to be updated by nothing, and its finalizers are as they were.
  abbrev pub IsQuietWork : k.State → Work × k.State → Type 0
  IsQuietWork s (w, t) = (w.updater.update_funcs ≡ []) × SameFinalizers v s t

  quiet_after :
      {s t : k.State} (q : Work × k.State)
      → SameFinalizers v s t
      → IsQuietWork t q
      → IsQuietWork s q
  quiet_after q e (idle, f) = (idle, f ∙ e)

  finish_release-IsQuietWork :
      (o : Unstructured) (u : Updater) (rel : Release) (s : k.State)
      → u.update_funcs ≡ []
      → IsQuietWork s (finish_release k r now o u rel s)
  unfolding finish_release ensure_deployed
  finish_release-IsQuietWork o u rel s idle =
      (idle, run_post_hooks-SameFinalizers r.post_hooks rel o s tracks.post_hooks)

  after_action-IsQuietWork :
      (o : Unstructured) (done : Result Release) (u : Updater) (s : k.State)
      → u.update_funcs ≡ []
      → IsQuietWork s (after_action k r now o ((done, u), s))
  unfolding after_action
  after_action-IsQuietWork o (err e) u s idle = (idle, refl)
  after_action-IsQuietWork o (ok rel) u s idle = finish_release-IsQuietWork o u rel s idle

  module _ {c : ActionInterface k.State} (client : ClientTracks v name c) where
    get_release_state-SameFinalizers :
        (o : Unstructured) (vals : Values) (s : k.State)
        → SameFinalizers v s (get_release_state k r c o vals s).1
    unfolding get_release_state
    get_release_state-SameFinalizers o vals s =
        let got = c.get o.name [] s in
        let opts = upgrade_options k r o ++ (dry_run_option ∷ []) in
        let tried = c.upgrade o.name o.namespace r.chrt vals opts got.1 in
        elim (Result-cases got.0) [
          | inr (e, g) ↦
              let same : (get_release_state k r c o vals s).1 ≡ got.1 = ground (arith, g) in
              ap v.finalizers same ∙ (client.gets o.name s).0
          | inl (current, g) ↦
              let same : (get_release_state k r c o vals s).1 ≡ tried.1 = ground (arith, g) in
              ap v.finalizers same
              ∙ client.upgrades o.name o.namespace r.chrt vals opts got.1
              ∙ (client.gets o.name s).0
        ]

    -- An action leaves the collected updates of the object empty.
    do_install-quiet :
        (u : Updater) (o : Unstructured) (vals : Values) (s : k.State)
        → ((do_install k r c u o vals s).0.1.update_funcs ≡ u.update_funcs)
          × SameFinalizers v s (do_install k r c u o vals s).1
    unfolding do_install report_failure
    do_install-quiet u o vals s =
        let opts = annotation_options r.install_annotations o.annotations in
        let tried = c.install o.name o.namespace r.chrt vals opts s in
        elim (Option-cases tried.0.1) [
          | inl e ↦
              let same : (do_install k r c u o vals s).1 ≡ tried.1 = ground (arith, e) in
              (
                ground (arith, e),
                ap v.finalizers same ∙ client.installs o.name o.namespace r.chrt vals opts s,
              )
          | inr (x, e) ↦
              let same : (do_install k r c u o vals s).1 ≡ tried.1 = ground (arith, e) in
              (
                ground (arith, e),
                ap v.finalizers same ∙ client.installs o.name o.namespace r.chrt vals opts s,
              )
        ]

    do_upgrade-quiet :
        (u : Updater) (o : Unstructured) (vals : Values) (s : k.State)
        → ((do_upgrade k r c u o vals s).0.1.update_funcs ≡ u.update_funcs)
          × SameFinalizers v s (do_upgrade k r c u o vals s).1
    unfolding do_upgrade report_failure
    do_upgrade-quiet u o vals s =
        let got = c.get o.name [] s in
        let opts = upgrade_options k r o in
        let tried = c.upgrade o.name o.namespace r.chrt vals opts got.1 in
        elim (Result-cases got.0) [
          | inr (x, g) ↦
              let same : (do_upgrade k r c u o vals s).1 ≡ got.1 = ground (arith, g) in
              (ground (arith, g), ap v.finalizers same ∙ (client.gets o.name s).0)
          | inl (current, g) ↦
              let same : (do_upgrade k r c u o vals s).1 ≡ tried.1 = ground (arith, g) in
              (
                ground (arith, g),
                ap v.finalizers same
                    ∙ client.upgrades o.name o.namespace r.chrt vals opts got.1
                    ∙ (client.gets o.name s).0,
              )
        ]

    do_reconcile-quiet :
        (u : Updater) (rel : Release) (s : k.State)
        → ((do_reconcile k r c u rel s).0.1.update_funcs ≡ u.update_funcs)
          × SameFinalizers v s (do_reconcile k r c u rel s).1
    unfolding do_reconcile
    do_reconcile-quiet u rel s =
        let same : (do_reconcile k r c u rel s).1 ≡ (c.reconcile rel s).1 = ground arith in
        (ground arith, ap v.finalizers same ∙ client.reconciles rel s)

    run_action-IsQuietWork :
        (o : Unstructured) (u : Updater) (vals : Values) (current : Option Release)
        (state : ReleaseState) (s : k.State)
        → u.update_funcs ≡ []
        → IsQuietWork s (run_action k r now c o u vals current state s)
    unfolding run_action
    run_action-IsQuietWork o u vals current needs_install s idle =
        let (funcs, same) = do_install-quiet u o vals s in
        let ((done, u'), t) = do_install k r c u o vals s in
        quiet_after (after_action k r now o ((done, u'), t)) same
          (after_action-IsQuietWork o done u' t (funcs ∙ idle))
    run_action-IsQuietWork o u vals current needs_upgrade s idle =
        let (funcs, same) = do_upgrade-quiet u o vals s in
        let ((done, u'), t) = do_upgrade k r c u o vals s in
        quiet_after (after_action k r now o ((done, u'), t)) same
          (after_action-IsQuietWork o done u' t (funcs ∙ idle))
    run_action-IsQuietWork o u vals none unchanged s idle = (idle, refl)
    run_action-IsQuietWork o u vals (some rel) unchanged s idle =
        let (funcs, same) = do_reconcile-quiet u rel s in
        let ((failure, u'), t) = do_reconcile k r c u rel s in
        elim (Option-cases failure) [
          | inl e ↦
              let last = finish_release-IsQuietWork o u' rel t (funcs ∙ idle) in
              let q : run_action k r now c o u vals (some rel) unchanged s
                  ≡ finish_release k r now o u' rel t =
                ground (arith, e) in
              subst (IsQuietWork s) (sym q) (last.0, last.1 ∙ same)
          | inr (x, e) ↦
              let q : run_action k r now c o u vals (some rel) unchanged s
                  ≡ (failing k r now o u' x, t) =
                ground (arith, e) in
              subst (IsQuietWork s) (sym q) (funcs ∙ idle, same)
        ]

    pub reconcile_release-IsQuietWork :
        (o : Unstructured) (u : Updater) (s : k.State)
        → u.update_funcs ≡ []
        → IsQuietWork s (reconcile_release k r now c o u s)
    unfolding reconcile_release
    reconcile_release-IsQuietWork o u s idle =
        let (got, o') = get_values k r o in
        let whole = reconcile_release k r now c o u s in
        elim (Result-cases got) [
          | inr (x, e) ↦
              let q : whole ≡ (
                failing k r now o' (update_status u (no_values_updates (r.error_text x))) x,
                s,
              ) =
                ground (arith, e) in
              subst (IsQuietWork s) (sym q) (idle, refl)
          | inl (vals, e) ↦
              let same = get_release_state-SameFinalizers o' vals s in
              let (found, t) = get_release_state k r c o' vals s in
              elim (Result-cases found) [
                | inr (x, f) ↦
                    let q : whole ≡ (
                      failing k r now o' (update_status u (no_state_updates (r.error_text x))) x,
                      t,
                    ) =
                      ground (arith, e, f) in
                    subst (IsQuietWork s) (sym q) (idle, same)
                | inl ((current, state), f) ↦
                    let u' =
                      update_status u
                        (ensure_condition (irreconcilable condition_false "" "") ∷ []) in
                    let same' =
                      run_pre_hooks-SameFinalizers r.pre_hooks o' vals t tracks.pre_hooks in
                    let ((hooked, vals'), w) = run_pre_hooks k r now r.pre_hooks o' vals t in
                    let q : whole ≡ run_action k r now c hooked u' vals' current state w =
                      ground (arith, e, f) in
                    let acted = run_action-IsQuietWork hooked u' vals' current state w idle in
                    subst (IsQuietWork s) (sym q) (acted.0, acted.1 ∙ same' ∙ same)
              ]
        ]
