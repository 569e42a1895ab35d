-- ===== src/Reconciler/Actions/State.antt =====
-- How the state of a release is found: by a dry run that is a dry run.
use helm_operator_plugins.Object.{Values, Unstructured}
use helm_operator_plugins.Cluster.{Cluster}
use helm_operator_plugins.Client.{OptionFor, apply_options}
use helm_operator_plugins.Client.Options.{UpgradeAction}
use helm_operator_plugins.Client.Options.Laws.{apply_options-append}
use helm_operator_plugins.Reconciler.{Reconciler, unchanged}
use helm_operator_plugins.Reconciler.Actions.{
  dry_run_option, upgrade_options, compare_releases, get_release_state,
}
use helm_operator_plugins.Client.Actions.{ActionInterface}
use helm_operator_plugins.Release.{Info, Release, status_failed, status_superseded}
use helm_operator_plugins.Prelude.{
  ok, Result-cases, ◌≡◌, ◌≢◌, ◌↔◌, inl, inr, true, none, some, List, [], ◌∷◌, ◌++◌, arith, eq_iff,
}

-- A list of options that ends in the dry run leaves a dry run.
last_option :
    (opts : List (OptionFor UpgradeAction)) (a b : UpgradeAction)
    → apply_options (opts ++ (dry_run_option ∷ [])) a ≡ ok b
    → (b.dry_run ≡ true) × (b.dry_run_option ≡ "server")
unfolding apply_options
last_option [] a b h = ground arith
last_option (o ∷ opts) a b h = elim (Result-cases (o a)) [
  | inl (c, e) ↦ last_option opts c b (ground (arith, e, h))
  | inr (e', e) ↦ absurd (ground (arith, e, h))
]

module _ (k : Cluster) (r : Reconciler k.State) where
  -- Whatever the upgrade annotations of the custom resource and the options before them set, the
  -- upgrade that getReleaseState asks for is a dry run on the server.
  pub dry_run_last :
      (defaults : List (OptionFor UpgradeAction)) (obj : Unstructured) (a b : UpgradeAction)
      → apply_options (defaults ++ (upgrade_options k r obj ++ (dry_run_option ∷ []))) a ≡ ok b
      → (b.dry_run ≡ true) × (b.dry_run_option ≡ "server")
  dry_run_last defaults obj a b h =
      let opts = upgrade_options k r obj ++ (dry_run_option ∷ []) in
      elim (Result-cases (apply_options defaults a)) [
        | inl (c, e) ↦
            last_option (upgrade_options k r obj) c b
              (ground (arith, apply_options-append defaults opts a, h, e))
        | inr (e', e) ↦ absurd (ground (arith, apply_options-append defaults opts a, h, e))
      ]

  compare_releases_unchanged :
      (current spec : Release) (info : Info)
      → current.info ≡ some info
      → (compare_releases k r current spec ≡ ok unchanged) ↔ (
          (spec.manifest ≡ current.manifest)
          × (info.status ≢ status_failed)
          × (info.status ≢ status_superseded))
  unfolding compare_releases
  compare_releases_unchanged current spec info known = (
    λ h. ground (
      arith,
      known,
      eq_iff spec.manifest current.manifest,
      eq_iff info.status status_failed,
      eq_iff info.status status_superseded,
    ),
    λ h. ground (
      arith,
      known,
      eq_iff spec.manifest current.manifest,
      eq_iff info.status status_failed,
      eq_iff info.status status_superseded,
    ),
  )

  -- With a current release and a dry run that returns one, a release is left as it is exactly if
  -- the two manifests are equal and the current release is neither failed nor superseded.
  pub release_unchanged :
      (client : ActionInterface k.State) (obj : Unstructured) (vals : Values)
      (current spec : Release) (info : Info) (s t u : k.State)
      → client.get obj.name [] s ≡ (ok current, t)
      → current.info ≡ some info
      → client.upgrade obj.name obj.namespace r.chrt vals
          (upgrade_options k r obj ++ (dry_run_option ∷ []))
          t
        ≡ ((some spec, none), u)
      → (get_release_state k r client obj vals s ≡ (ok (some current, unchanged), u)) ↔ (
          (spec.manifest ≡ current.manifest)
          × (info.status ≢ status_failed)
          × (info.status ≢ status_superseded))
  unfolding get_release_state
  release_unchanged client obj vals current spec info s t u got known asked = (
    λ h. (compare_releases_unchanged current spec info known).0 (ground (arith, got, asked, h)),
    λ h. ground (arith, got, asked, (compare_releases_unchanged current spec info known).1 h),
  )
