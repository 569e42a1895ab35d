-- ===== src/Client/Actions.antt =====
-- The methods of actionClient (pkg/client/actionclient.go). Helm's actions run over an outside
-- state; install and upgrade may return a release beside an error.
pub mod Failures
use helm_operator_plugins.Object.{Values, Chart}
use helm_operator_plugins.Client.{
  GetAction, HistoryAction, UninstallAction, RollbackAction, OptionFor, apply_options,
}
use helm_operator_plugins.Client.Options.{InstallAction, UpgradeAction}
use helm_operator_plugins.Client.Patch.{PatchType, PatchLib, create_patch}
use helm_operator_plugins.Exec.{Exec, pure, lift, on_error, ◌>>=◌, ◌>>◌}
use helm_operator_plugins.Release.{Release}
use helm_operator_plugins.Prelude.{
  if◌then◌else◌, is_some, Error, wrap, Result, ok, err, is_not_found, is_release_not_found, String,
  Bool, true, ◌&&◌, Option, none, some, List, ◌∷◌, ◌++◌,
}

abbrev pub Attempt : Type 0 → Type 0 → Type 0
Attempt S A = S → (Option A × Option Error) × S

-- resource.Info
pub record ResourceInfo (Doc : Type 0) : Type 0 where
  pub namespace : String
  pub name : String
  pub object : Doc

-- helm.sh/helm/v3/pkg/action and the helper of cli-runtime for one resource
pub record Helm (State : Type 0) : Type 1 where
  pub Doc : Type 0
  pub new_get : GetAction
  pub new_history : HistoryAction
  pub new_install : InstallAction
  pub new_upgrade : UpgradeAction
  pub new_uninstall : UninstallAction
  pub new_rollback : RollbackAction
  pub run_get : GetAction → String → Exec State Release
  -- the history, newest first, as releaseutil.Reverse by revision leaves it
  pub run_history : HistoryAction → String → Exec State (List Release)
  pub newest_first : List Release → List Release
  pub run_install : InstallAction → Chart → Values → Attempt State Release
  pub run_upgrade : UpgradeAction → String → Chart → Values → Attempt State Release
  pub run_uninstall : UninstallAction → String → Exec State Release
  pub run_rollback : RollbackAction → String → Exec State (Unit {0})
  pub build : String → Result (List (ResourceInfo Doc))
  pub visit :
      (ResourceInfo Doc → Option Error → Exec State (Unit {0}))
      → List (ResourceInfo Doc)
      → Exec State (Unit {0})
  pub get_object : String → String → Exec State Doc
  pub create_object : String → Doc → Exec State Doc
  pub patch_object : String → String → PatchType → String → Exec State Doc
  pub patch_lib : PatchLib Doc

pub record ActionClient : Type 0 where
  pub default_get_opts : List (OptionFor GetAction)
  pub default_history_opts : List (OptionFor HistoryAction)
  pub default_install_opts : List (OptionFor InstallAction)
  pub default_upgrade_opts : List (OptionFor UpgradeAction)
  pub default_uninstall_opts : List (OptionFor UninstallAction)
  pub enable_failure_rollbacks : Bool
  pub install_failure_uninstall_opts : List (OptionFor UninstallAction)
  pub upgrade_failure_rollback_opts : List (OptionFor RollbackAction)

-- client.ActionInterface, without Config
pub record ActionInterface (S : Type 0) : Type 0 where
  pub get : String → List (OptionFor GetAction) → Exec S Release
  pub history : String → List (OptionFor HistoryAction) → Exec S (List Release)
  pub install :
      String → String → Chart → Values → List (OptionFor InstallAction) → Attempt S Release
  pub upgrade :
      String → String → Chart → Values → List (OptionFor UpgradeAction) → Attempt S Release
  pub uninstall : String → List (OptionFor UninstallAction) → Exec S Release
  pub reconcile : Release → Exec S (Unit {0})

module _ {State : Type 0} (helm : Helm State) (c : ActionClient) where
  unfoldable pub get : String → List (OptionFor GetAction) → Exec State Release
  get name opts = do
    action ← lift (apply_options (c.default_get_opts ++ opts) helm.new_get)
    helm.run_get action name

  unfoldable pub history : String → List (OptionFor HistoryAction) → Exec State (List Release)
  history name opts = do
    action ← lift (apply_options (c.default_history_opts ++ opts) helm.new_history)
    rels ← helm.run_history action name
    pure (helm.newest_first rels)

  unfoldable pub run_uninstall : String → List (OptionFor UninstallAction) → Exec State Release
  run_uninstall name opts = do
    action ← lift (apply_options opts helm.new_uninstall)
    helm.run_uninstall action name

  unfoldable pub uninstall : String → List (OptionFor UninstallAction) → Exec State Release
  unfolding run_uninstall
  uninstall name opts = run_uninstall name (c.default_uninstall_opts ++ opts)

  -- What Install returns once the uninstall of the failed release is done.
  abbrev pub after_uninstall :
      Option Release → Error → Result Release → Option Release × Option Error
  after_uninstall rel e (ok _) = (rel, some e)
  after_uninstall rel e (err uninstall_err) =
      if is_release_not_found uninstall_err
      then (rel, some e)
      else (none, some (wrap "uninstall failed: original install error" e))

  unfoldable pub install :
      String → String → Chart → Values → List (OptionFor InstallAction) → Attempt State Release
  unfolding run_uninstall
  install name namespace chrt vals opts s =
      elim (apply_options (c.default_install_opts ++ opts) helm.new_install) [
        | err e ↦ ((none, some e), s)
        | ok action ↦
            let ((rel, failure), t) =
              helm.run_install (record action { release_name = name; namespace = namespace }) chrt
                vals s in
            elim failure [
              | none ↦ ((rel, none), t)
              | some e ↦
                  if c.enable_failure_rollbacks && is_some rel
                  then (let (r, u) = run_uninstall name c.install_failure_uninstall_opts t in
                      (after_uninstall rel e r, u))
                  else ((rel, some e), t)
            ]
      ]

  unfoldable pub rollback : String → List (OptionFor RollbackAction) → Exec State (Unit {0})
  rollback name opts = do
    action ← lift (apply_options opts helm.new_rollback)
    helm.run_rollback action name

  abbrev pub after_rollback :
      Option Release → Error → Result (Unit {0}) → Option Release × Option Error
  after_rollback rel e (ok _) = (rel, some e)
  after_rollback rel e (err _) = (none, some (wrap "rollback failed: original upgrade error" e))

  -- The option that Upgrade puts before those of the client.
  abbrev pub forced : UpgradeAction → OptionFor RollbackAction
  forced action r = ok (record r { force = true; max_history = action.max_history })

  unfoldable pub upgrade :
      String → String → Chart → Values → List (OptionFor UpgradeAction) → Attempt State Release
  unfolding rollback
  upgrade name namespace chrt vals opts s =
      elim (apply_options (c.default_upgrade_opts ++ opts) helm.new_upgrade) [
        | err e ↦ ((none, some e), s)
        | ok action ↦
            let ((rel, failure), t) =
              helm.run_upgrade (record action { namespace = namespace }) name chrt vals s in
            elim failure [
              | none ↦ ((rel, none), t)
              | some e ↦
                  if c.enable_failure_rollbacks && is_some rel
                  then (let (r, u) =
                        rollback name (forced action ∷ c.upgrade_failure_rollback_opts) t in
                      (after_rollback rel e r, u))
                  else ((rel, some e), t)
            ]
      ]

  -- The function that `Reconcile` visits each resource with.
  unfoldable pub reconcile_resource : ResourceInfo helm.Doc → Option Error → Exec State (Unit {0})
  unfolding is_not_found
  reconcile_resource expected (some e) s = (err (wrap "visit error" e), s)
  reconcile_resource expected none s =
      let (found, t) = helm.get_object expected.namespace expected.name s in
      elim found [
        | err e ↦
            if is_not_found e
            then (on_error (wrap "create error")
                    (helm.create_object expected.namespace expected.object)
                  >> pure tt)
                t
            else (err (wrap "could not get object" e), t)
        | ok existing ↦ elim (create_patch helm.patch_lib existing expected.object) [
          | err e ↦ (err (wrap "error creating patch" e), t)
          | ok (none, _) ↦ (ok tt, t)
          | ok (some patch, patch_type) ↦
              (on_error (wrap "patch error")
                    (helm.patch_object expected.namespace expected.name patch_type patch)
                  >> pure tt)
                t
        ]
      ]

  unfoldable pub reconcile : Release → Exec State (Unit {0})
  unfolding reconcile_resource
  reconcile rel = do infos ← lift (helm.build rel.manifest); helm.visit reconcile_resource infos

  -- The action client as what the reconciler is given.
  unfoldable pub action_interface : ActionInterface State
  unfolding get history install upgrade uninstall reconcile
  action_interface = record {
    get = get;
    history = history;
    install = install;
    upgrade = upgrade;
    uninstall = uninstall;
    reconcile = reconcile;
  }
