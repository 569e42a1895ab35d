-- ===== src/Fake/Calls.antt =====
-- The calls that the reconciler makes, as the recording client sees them.
use helm_operator_plugins.Object.{Values, Unstructured}
use helm_operator_plugins.Cluster.{Cluster}
use helm_operator_plugins.Client.{OptionFor, apply_options}
use helm_operator_plugins.Client.Options.{UpgradeAction}
use helm_operator_plugins.Client.Actions.{ActionInterface}
use helm_operator_plugins.Reconciler.{Reconciler}
use helm_operator_plugins.Reconciler.Actions.{dry_run_option, upgrade_options, get_release_state}
use helm_operator_plugins.Reconciler.Actions.State.{dry_run_last}
use helm_operator_plugins.Fake.{
  UpgradeCall, ActionClient, get, history, install, upgrade, uninstall, reconcile,
}
use helm_operator_plugins.Prelude.{
  ok, Result-cases, ◌≡◌, refl, ap, ◌∙◌, ◌⊎◌, inl, inr, true, List, [], ◌∷◌, ◌++◌, arith,
}

-- Options that leave a dry run on the server, whatever options come before them.
abbrev pub IsDryRun : List (OptionFor UpgradeAction) → Type 0
IsDryRun opts =
    (defaults : List (OptionFor UpgradeAction)) (a b : UpgradeAction)
    → apply_options (defaults ++ opts) a ≡ ok b
    → (b.dry_run ≡ true) × (b.dry_run_option ≡ "server")

-- getReleaseState ends after its Get or after its Upgrade.
two_ends :
    (k : Cluster) (r : Reconciler k.State) (client : ActionInterface k.State) (obj : Unstructured)
    (vals : Values) (s : k.State)
    → let t = (client.get obj.name [] s).1 in
      let opts = upgrade_options k r obj ++ (dry_run_option ∷ []) in
      ((get_release_state k r client obj vals s).1 ≡ t)
      ⊎ ((get_release_state k r client obj vals s).1
          ≡ (client.upgrade obj.name obj.namespace r.chrt vals opts t).1)
unfolding get_release_state
two_ends k r client obj vals s =
    let got = client.get obj.name [] s in
    let opts = upgrade_options k r obj ++ (dry_run_option ∷ []) in
    elim (Result-cases got.0) [
      | inr (e, g) ↦ inl (ground (arith, g))
      | inl (current, g) ↦ inr (ground (arith, g))
    ]

module _ (k : Cluster) (r : Reconciler k.State) (read : k.State → ActionClient)
    (write : ActionClient → k.State → k.State) where
  -- A call of the client, which is a part of the state.
  abbrev pub within : {A : Type 0} → (ActionClient → A × ActionClient) → k.State → A × k.State
  within call s = let (a, c) = call (read s) in (a, write c s)

  abbrev pub client_within : ActionInterface k.State
  client_within = record {
    get = λ name opts. within (get name opts);
    history = λ name opts. within (history name opts);
    install = λ name namespace chrt vals opts. within (install name namespace chrt vals opts);
    upgrade = λ name namespace chrt vals opts. within (upgrade name namespace chrt vals opts);
    uninstall = λ name opts. within (uninstall name opts);
    reconcile = λ rel. within (reconcile rel);
  }

  -- The state of a release is found with one Get and at most one Upgrade, which is a dry run on the
  -- server whatever the defaults of the client and the annotations of the object are; there is no
  -- Install, no Uninstall and no Reconcile.
  pub get_release_state-calls :
      (obj : Unstructured) (vals : Values) (s : k.State)
      → ((c : ActionClient) (t : k.State) → read (write c t) ≡ c)
      → let before = read s in
        let after = read (get_release_state k r client_within obj vals s).1 in
        (after.gets ≡ before.gets ++ (record { name = obj.name; opts = [] } ∷ []))
        × (after.installs ≡ before.installs)
        × (after.uninstalls ≡ before.uninstalls)
        × (after.reconciles ≡ before.reconciles)
        × ((after.upgrades ≡ before.upgrades)
            ⊎ ((call : UpgradeCall) × (after.upgrades ≡ before.upgrades ++ (call ∷ []))
                × (call.name ≡ obj.name)
                × IsDryRun call.opts))
  unfolding get upgrade
  get_release_state-calls obj vals s law =
      let opts = upgrade_options k r obj ++ (dry_run_option ∷ []) in
      let t = (client_within.get obj.name [] s).1 in
      let at_get : read t ≡ (get obj.name [] (read s)).1 = law (get obj.name [] (read s)).1 s in
      let asked = upgrade obj.name obj.namespace r.chrt vals opts in
      let at_upgrade : read (within asked t).1 ≡ (asked (get obj.name [] (read s)).1).1 =
        law (asked (read t)).1 t ∙ ap (λ c. (asked c).1) at_get in
      elim (two_ends k r client_within obj vals s) [
        | inl e ↦
            let same = ap read e ∙ at_get in
            (
              ap (λ c. c.gets) same,
              ap (λ c. c.installs) same,
              ap (λ c. c.uninstalls) same,
              ap (λ c. c.reconciles) same,
              inl (ap (λ c. c.upgrades) same),
            )
        | inr e ↦
            let same = ap read e ∙ at_upgrade in
            (
              ap (λ c. c.gets) same,
              ap (λ c. c.installs) same,
              ap (λ c. c.uninstalls) same,
              ap (λ c. c.reconciles) same,
              inr (
                record {
                  name = obj.name;
                  namespace = obj.namespace;
                  chart = r.chrt;
                  values = vals;
                  opts = opts;
                },
                ap (λ c. c.upgrades) same,
                refl,
                λ defaults a b h. dry_run_last k r defaults obj a b h,
              ),
            )
      ]
