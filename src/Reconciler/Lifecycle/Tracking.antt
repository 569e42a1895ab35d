-- ===== src/Reconciler/Lifecycle/Tracking.antt =====
-- The action client does what the life of a release asks of a client, where helm does.
use helm_operator_plugins.Reconciler.Lifecycle.{
  View, Removes, IsPlain, SameFinalizers, Quiet, ClientTracks,
}
use helm_operator_plugins.Client.{
  GetAction, UninstallAction, RollbackAction, OptionFor, apply_options,
}
use helm_operator_plugins.Client.Options.{InstallAction, UpgradeAction}
use helm_operator_plugins.Client.Patch.{PatchType, create_patch}
use helm_operator_plugins.Client.Actions.{
  ResourceInfo, Helm, ActionClient, get, run_uninstall, uninstall, install, rollback, forced,
  upgrade, reconcile_resource, reconcile, action_interface,
}
use helm_operator_plugins.Release.{Release}
use helm_operator_plugins.Exec.{Exec}
use helm_operator_plugins.Object.{Values, Chart}
use helm_operator_plugins.Prelude.{
  Bool-cases, Option-cases, is_some, true-false, All, Error, ok, err, is_not_found,
  is_release_not_found, Result-cases, String, ◌≡◌, refl, sym, ap, subst, ◌∙◌, inl, inr, true, false,
  ◌&&◌, Option, none, some, List, [], ◌∷◌, ◌++◌, arith,
}

-- What helm and the cluster do on the calls of the action client: none of them changes the
-- finalizers of the custom resource, to read makes no release, and an uninstall of the release of this
-- name that is really to remove it, as helm's own settings are to, leaves none if it succeeds or finds
-- none. A visitor calls the function that it is given, and nothing else.
pub record HelmTracks {S : Type 0} (v : View S) (name : String) (helm : Helm S) : Type 1 where
  pub removes : Removes helm.new_uninstall
  pub gets : (a : GetAction) (n : String) (s : S) → Quiet v s (helm.run_get a n s).1
  pub installs :
      (a : InstallAction) (chrt : Chart) (vals : Values) (s : S)
      → SameFinalizers v s (helm.run_install a chrt vals s).1
  pub upgrades :
      (a : UpgradeAction) (n : String) (chrt : Chart) (vals : Values) (s : S)
      → SameFinalizers v s (helm.run_upgrade a n chrt vals s).1
  pub rolls_back :
      (a : RollbackAction) (n : String) (s : S) → SameFinalizers v s (helm.run_rollback a n s).1
  pub uninstalls :
      (a : UninstallAction) (n : String) (s : S) → Quiet v s (helm.run_uninstall a n s).1
  pub uninstalled :
      (a : UninstallAction) (n : String) (s t : S) (rel : Release)
      → n ≡ name
      → Removes a
      → helm.run_uninstall a n s ≡ (ok rel, t)
      → v.released t ≡ false
  pub missing :
      (a : UninstallAction) (n : String) (s t : S) (e : Error)
      → n ≡ name
      → Removes a
      → helm.run_uninstall a n s ≡ (err e, t)
      → is_release_not_found e ≡ true
      → v.released t ≡ false
  pub visits :
      (P : S → Type 0) (f : ResourceInfo helm.Doc → Option Error → Exec S (Unit {0}))
      (infos : List (ResourceInfo helm.Doc)) (s : S)
      → ((info : ResourceInfo helm.Doc) (failure : Option Error) (t : S)
          → P t
          → P (f info failure t).1)
      → P s
      → P (helm.visit f infos s).1
  pub objects : (ns n : String) (s : S) → SameFinalizers v s (helm.get_object ns n s).1
  pub creates :
      (ns : String) (d : helm.Doc) (s : S) → SameFinalizers v s (helm.create_object ns d s).1
  pub patches :
      (ns n : String) (t : PatchType) (p : String) (s : S)
      → SameFinalizers v s (helm.patch_object ns n t p s).1

module _ {S : Type 0} {v : View S} {name : String} {helm : Helm S} (tracks : HelmTracks v name helm)
    (c : ActionClient) where
  get-Quiet :
      (n : String) (opts : List (OptionFor GetAction)) (s : S) → Quiet v s (get helm c n opts s).1
  unfolding get
  get-Quiet n opts s =
      elim (Result-cases (apply_options (c.default_get_opts ++ opts) helm.new_get)) [
        | inr (x, e) ↦
            let same : (get helm c n opts s).1 ≡ s = ground (arith, e) in
            subst (Quiet v s) (sym same) (refl, λ gone. gone)
        | inl (a, e) ↦
            let same : (get helm c n opts s).1 ≡ (helm.run_get a n s).1 = ground (arith, e) in
            subst (Quiet v s) (sym same) (tracks.gets a n s)
      ]

  run_uninstall-Quiet :
      (n : String) (opts : List (OptionFor UninstallAction)) (s : S)
      → Quiet v s (run_uninstall helm c n opts s).1
  unfolding run_uninstall
  run_uninstall-Quiet n opts s = elim (Result-cases (apply_options opts helm.new_uninstall)) [
    | inr (x, e) ↦
        let same : (run_uninstall helm c n opts s).1 ≡ s = ground (arith, e) in
        subst (Quiet v s) (sym same) (refl, λ gone. gone)
    | inl (a, e) ↦
        let same : (run_uninstall helm c n opts s).1 ≡ (helm.run_uninstall a n s).1 =
          ground (arith, e) in
        subst (Quiet v s) (sym same) (tracks.uninstalls a n s)
  ]

  install-SameFinalizers :
      (n ns : String) (chrt : Chart) (vals : Values) (opts : List (OptionFor InstallAction)) (s : S)
      → SameFinalizers v s (install helm c n ns chrt vals opts s).1
  unfolding install
  install-SameFinalizers n ns chrt vals opts s =
      let whole = install helm c n ns chrt vals opts s in
      elim (Result-cases (apply_options (c.default_install_opts ++ opts) helm.new_install)) [
        | inr (x, e) ↦ let same : whole.1 ≡ s = ground (arith, e) in ap v.finalizers same
        | inl (a, e) ↦
            let named = record a { release_name = n; namespace = ns } in
            let tried = helm.run_install named chrt vals s in
            let kept = tracks.installs named chrt vals s in
            elim (Option-cases tried.0.1) [
              | inl f ↦
                  let same : whole.1 ≡ tried.1 = ground (arith, e, f) in ap v.finalizers same ∙ kept
              | inr (x, f) ↦ elim (Bool-cases (c.enable_failure_rollbacks && is_some tried.0.0)) [
                | inl undo ↦
                    let cleaned = run_uninstall helm c n c.install_failure_uninstall_opts tried.1 in
                    let same : whole.1 ≡ cleaned.1 = ground (arith, e, f, undo) in
                    ap v.finalizers same
                    ∙ (run_uninstall-Quiet n c.install_failure_uninstall_opts tried.1).0
                    ∙ kept
                | inr leave ↦
                    let same : whole.1 ≡ tried.1 = ground (arith, e, f, leave) in
                    ap v.finalizers same ∙ kept
              ]
            ]
      ]

  rollback-SameFinalizers :
      (n : String) (opts : List (OptionFor RollbackAction)) (s : S)
      → SameFinalizers v s (rollback helm c n opts s).1
  unfolding rollback
  rollback-SameFinalizers n opts s = elim (Result-cases (apply_options opts helm.new_rollback)) [
    | inr (x, e) ↦
        let same : (rollback helm c n opts s).1 ≡ s = ground (arith, e) in ap v.finalizers same
    | inl (a, e) ↦
        let same : (rollback helm c n opts s).1 ≡ (helm.run_rollback a n s).1 = ground (arith, e) in
        ap v.finalizers same ∙ tracks.rolls_back a n s
  ]

  upgrade-SameFinalizers :
      (n ns : String) (chrt : Chart) (vals : Values) (opts : List (OptionFor UpgradeAction)) (s : S)
      → SameFinalizers v s (upgrade helm c n ns chrt vals opts s).1
  unfolding upgrade
  upgrade-SameFinalizers n ns chrt vals opts s =
      let whole = upgrade helm c n ns chrt vals opts s in
      elim (Result-cases (apply_options (c.default_upgrade_opts ++ opts) helm.new_upgrade)) [
        | inr (x, e) ↦ let same : whole.1 ≡ s = ground (arith, e) in ap v.finalizers same
        | inl (a, e) ↦
            let placed = record a { namespace = ns } in
            let tried = helm.run_upgrade placed n chrt vals s in
            let kept = tracks.upgrades placed n chrt vals s in
            elim (Option-cases tried.0.1) [
              | inl f ↦
                  let same : whole.1 ≡ tried.1 = ground (arith, e, f) in ap v.finalizers same ∙ kept
              | inr (x, f) ↦ elim (Bool-cases (c.enable_failure_rollbacks && is_some tried.0.0)) [
                | inl undo ↦
                    let opts' = forced helm c a ∷ c.upgrade_failure_rollback_opts in
                    let same : whole.1 ≡ (rollback helm c n opts' tried.1).1 =
                      ground (arith, e, f, undo) in
                    ap v.finalizers same ∙ rollback-SameFinalizers n opts' tried.1 ∙ kept
                | inr leave ↦
                    let same : whole.1 ≡ tried.1 = ground (arith, e, f, leave) in
                    ap v.finalizers same ∙ kept
              ]
            ]
      ]

  reconcile_resource-SameFinalizers :
      (info : ResourceInfo helm.Doc) (failure : Option Error) (s : S)
      → SameFinalizers v s (reconcile_resource helm c info failure s).1
  unfolding reconcile_resource
  reconcile_resource-SameFinalizers info (some e) s = refl
  reconcile_resource-SameFinalizers info none s =
      let whole = reconcile_resource helm c info none s in
      let found = helm.get_object info.namespace info.name s in
      let kept = tracks.objects info.namespace info.name s in
      let created = helm.create_object info.namespace info.object found.1 in
      elim (Result-cases found.0) [
        | inr (x, e) ↦ elim (Bool-cases (is_not_found x)) [
          | inl gone ↦
              let same : whole.1 ≡ created.1 = ground (arith, e, gone) in
              ap v.finalizers same ∙ tracks.creates info.namespace info.object found.1 ∙ kept
          | inr other_error ↦
              let same : whole.1 ≡ found.1 = ground (arith, e, other_error) in
              ap v.finalizers same ∙ kept
        ]
        | inl (there, e) ↦ elim (Result-cases (create_patch helm.patch_lib there info.object)) [
          | inr (x, p) ↦
              let same : whole.1 ≡ found.1 = ground (arith, e, p) in ap v.finalizers same ∙ kept
          | inl ((none, type), p) ↦
              let same : whole.1 ≡ found.1 = ground (arith, e, p) in ap v.finalizers same ∙ kept
          | inl ((some patch, type), p) ↦
              let sent = helm.patch_object info.namespace info.name type patch found.1 in
              let same : whole.1 ≡ sent.1 = ground (arith, e, p) in
              ap v.finalizers same
              ∙ tracks.patches info.namespace info.name type patch found.1
              ∙ kept
        ]
      ]

  reconcile-SameFinalizers : (rel : Release) (s : S) → SameFinalizers v s (reconcile helm c rel s).1
  unfolding reconcile
  reconcile-SameFinalizers rel s = elim (Result-cases (helm.build rel.manifest)) [
    | inr (x, e) ↦
        let same : (reconcile helm c rel s).1 ≡ s = ground (arith, e) in ap v.finalizers same
    | inl (infos, e) ↦
        let visited = helm.visit (reconcile_resource helm c) infos s in
        let same : (reconcile helm c rel s).1 ≡ visited.1 = ground (arith, e) in
        ap v.finalizers same
        ∙ tracks.visits (SameFinalizers v s) (reconcile_resource helm c) infos s
            (λ info failure t kept. reconcile_resource-SameFinalizers info failure t ∙ kept) refl
  ]

  All-append :
      (os ps : List (OptionFor UninstallAction))
      → All IsPlain os
      → All IsPlain ps
      → All IsPlain (os ++ ps)
  All-append [] ps a b = b
  All-append (o ∷ os) ps (one, a) b = (one, All-append os ps a b)

  options_remove :
      (os : List (OptionFor UninstallAction)) (a b : UninstallAction)
      → All IsPlain os
      → Removes a
      → apply_options os a ≡ ok b
      → Removes b
  unfolding apply_options
  options_remove [] a b plain removes h =
      let same : a ≡ b = ground (arith, h) in subst Removes same removes
  options_remove (o ∷ os) a b (one, plain) removes h = elim (Result-cases (o a)) [
    | inr (x, f) ↦ absurd (ground (arith, f, h))
    | inl (m, f) ↦ options_remove os m b plain (one.0 a m removes f) (ground (arith, f, h))
  ]

  options_fail_plainly :
      (os : List (OptionFor UninstallAction)) (a : UninstallAction) (e : Error)
      → All IsPlain os
      → apply_options os a ≡ err e
      → is_release_not_found e ≡ false
  unfolding apply_options
  options_fail_plainly [] a e plain h = absurd (ground (arith, h))
  options_fail_plainly (o ∷ os) a e (one, plain) h = elim (Result-cases (o a)) [
    | inr (x, f) ↦
        let same : x ≡ e = ground (arith, f, h) in
        subst (λ y. is_release_not_found y ≡ false) same (one.1 a x f)
    | inl (b, f) ↦ options_fail_plainly os b e plain (ground (arith, f, h))
  ]

  module _ (plain : All IsPlain c.default_uninstall_opts) where
    uninstalled_gone :
        (n : String) (opts : List (OptionFor UninstallAction)) (s t : S) (rel : Release)
        → n ≡ name
        → All IsPlain opts
        → uninstall helm c n opts s ≡ (ok rel, t)
        → v.released t ≡ false
    unfolding uninstall run_uninstall
    uninstalled_gone n opts s t rel named more h =
        let all = c.default_uninstall_opts ++ opts in
        let all_plain = All-append c.default_uninstall_opts opts plain more in
        elim (Result-cases (apply_options all helm.new_uninstall)) [
          | inr (x, e) ↦ absurd (ground (arith, e, h))
          | inl (a, e) ↦
              let removes = options_remove all helm.new_uninstall a all_plain tracks.removes e in
              tracks.uninstalled a n s t rel named removes (ground (arith, e, h))
        ]

    missing_gone :
        (n : String) (opts : List (OptionFor UninstallAction)) (s t : S) (x : Error)
        → n ≡ name
        → All IsPlain opts
        → uninstall helm c n opts s ≡ (err x, t)
        → is_release_not_found x ≡ true
        → v.released t ≡ false
    unfolding uninstall run_uninstall
    missing_gone n opts s t x named more h gone =
        let all = c.default_uninstall_opts ++ opts in
        let all_plain = All-append c.default_uninstall_opts opts plain more in
        elim (Result-cases (apply_options all helm.new_uninstall)) [
          | inl (a, e) ↦
              let removes = options_remove all helm.new_uninstall a all_plain tracks.removes e in
              tracks.missing a n s t x named removes (ground (arith, e, h)) gone
          | inr (y, e) ↦
              let same : y ≡ x = ground (arith, e, h) in
              let not_gone = options_fail_plainly all helm.new_uninstall y all_plain e in
              absurd (true-false (sym gone ∙ sym (ap is_release_not_found same) ∙ not_gone))
        ]

    -- Where helm and the cluster do as `HelmTracks` says of the release of this name, and every
    -- default option of an uninstall leaves it one that removes the release and does not fail as if
    -- there were none, the action client does what `ClientTracks` asks of a client: Get, Install,
    -- Upgrade, Uninstall and Reconcile leave the finalizers of the resource as they were, the
    -- clean-up after a failure and the visit of the resources of a release included; Get and
    -- Uninstall make no release; and an Uninstall of the release of this name, with options of that
    -- sort, that succeeds or finds no release leaves none.
    pub action_interface-ClientTracks : ClientTracks v name (action_interface helm c)
    unfolding action_interface uninstall
    action_interface-ClientTracks = record {
      gets = λ n s. get-Quiet n [] s;
      installs = install-SameFinalizers;
      upgrades = upgrade-SameFinalizers;
      reconciles = reconcile-SameFinalizers;
      uninstalls = λ n opts s. run_uninstall-Quiet n (c.default_uninstall_opts ++ opts) s;
      uninstalled = uninstalled_gone;
      missing = missing_gone;
    }
