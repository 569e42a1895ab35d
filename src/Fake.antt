-- ===== src/Fake.antt =====
-- pkg/reconciler/internal/fake/actionclient.go: an action client that records the calls and gives
-- prepared answers. An answer is a value here; the answer to Config, and the call of it, are left
-- out.
pub mod Calls
mod Examples
use helm_operator_plugins.Object.{Values, Chart, Unstructured}
use helm_operator_plugins.Client.{GetAction, HistoryAction, UninstallAction, OptionFor}
use helm_operator_plugins.Client.Options.{InstallAction, UpgradeAction}
use helm_operator_plugins.Client.Actions.{Attempt, ActionInterface}
use helm_operator_plugins.Exec.{Exec}
use helm_operator_plugins.Release.{Release}
use helm_operator_plugins.Prelude.{
  Error, message, Result, ok, err, String, Option, none, some, List, [], ◌∷◌, ◌++◌,
}

pub record GetCall : Type 0 where
  pub name : String
  pub opts : List (OptionFor GetAction)

pub record HistoryCall : Type 0 where
  pub name : String
  pub opts : List (OptionFor HistoryAction)

pub record InstallCall : Type 0 where
  pub name : String
  pub namespace : String
  pub chart : Chart
  pub values : Values
  pub opts : List (OptionFor InstallAction)

pub record UpgradeCall : Type 0 where
  pub name : String
  pub namespace : String
  pub chart : Chart
  pub values : Values
  pub opts : List (OptionFor UpgradeAction)

pub record UninstallCall : Type 0 where
  pub name : String
  pub opts : List (OptionFor UninstallAction)

pub record ReconcileCall : Type 0 where
  pub release : Release

pub record ActionClient : Type 0 where
  pub gets : List GetCall
  pub histories : List HistoryCall
  pub installs : List InstallCall
  pub upgrades : List UpgradeCall
  pub uninstalls : List UninstallCall
  pub reconciles : List ReconcileCall
  pub handle_get : Result Release
  pub handle_history : Result (List Release)
  pub handle_install : Option Release × Option Error
  pub handle_upgrade : Option Release × Option Error
  pub handle_uninstall : Result Release
  pub handle_reconcile : Result (Unit {0})

abbrev pub new_action_client : ActionClient
new_action_client = record {
  gets = [];
  histories = [];
  installs = [];
  upgrades = [];
  uninstalls = [];
  reconciles = [];
  handle_get = err (message "get not implemented");
  handle_history = err (message "history not implemented");
  handle_install = (none, some (message "install not implemented"));
  handle_upgrade = (none, some (message "upgrade not implemented"));
  handle_uninstall = err (message "uninstall not implemented");
  handle_reconcile = err (message "reconcile not implemented");
}

unfoldable pub get : String → List (OptionFor GetAction) → Exec ActionClient Release
get name opts c =
    (c.handle_get, record c { gets = c.gets ++ (record { name = name; opts = opts } ∷ []) })

unfoldable pub history : String → List (OptionFor HistoryAction) → Exec ActionClient (List Release)
history name opts c = (
  c.handle_history,
  record c { histories = c.histories ++ (record { name = name; opts = opts } ∷ []) },
)

unfoldable pub install :
    String → String → Chart → Values → List (OptionFor InstallAction) → Attempt ActionClient Release
install name namespace chrt vals opts c = (
  c.handle_install,
  record c {
    installs =
        c.installs
        ++ (record { name = name; namespace = namespace; chart = chrt; values = vals; opts = opts }
            ∷ []);
  },
)

unfoldable pub upgrade :
    String → String → Chart → Values → List (OptionFor UpgradeAction) → Attempt ActionClient Release
upgrade name namespace chrt vals opts c = (
  c.handle_upgrade,
  record c {
    upgrades =
        c.upgrades
        ++ (record { name = name; namespace = namespace; chart = chrt; values = vals; opts = opts }
            ∷ []);
  },
)

unfoldable pub uninstall : String → List (OptionFor UninstallAction) → Exec ActionClient Release
uninstall name opts c = (
  c.handle_uninstall,
  record c { uninstalls = c.uninstalls ++ (record { name = name; opts = opts } ∷ []) },
)

unfoldable pub reconcile : Release → Exec ActionClient (Unit {0})
reconcile rel c =
    (c.handle_reconcile, record c { reconciles = c.reconciles ++ (record { release = rel } ∷ []) })

abbrev pub fake_client : ActionInterface ActionClient
fake_client = record {
  get = get;
  history = history;
  install = install;
  upgrade = upgrade;
  uninstall = uninstall;
  reconcile = reconcile;
}

-- A getter that returns the client or an error.
pub record FakeActionClientGetter : Type 0 where
  pub action_client : ActionInterface ActionClient
  pub return_err : Option Error

abbrev pub new_fake_action_client_getter :
    ActionInterface ActionClient → Option Error → FakeActionClientGetter
new_fake_action_client_getter c or_err = record { action_client = c; return_err = or_err }

unfoldable pub fake_action_client_for :
    FakeActionClientGetter → Unstructured → Exec ActionClient (ActionInterface ActionClient)
fake_action_client_for hcg obj s = elim hcg.return_err [
  | some e ↦ (err e, s)
  | none ↦ (ok hcg.action_client, s)
]
