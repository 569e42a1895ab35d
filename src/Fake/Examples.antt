-- ===== src/Fake/Examples.antt =====
-- The calls at concrete data: a cluster whose state is the recording client.
use helm_operator_plugins.Object.{end, absent, Unstructured}
use helm_operator_plugins.Cluster.{Cluster}
use helm_operator_plugins.SpecValues.{default_mapper, default_translator}
use helm_operator_plugins.Reconciler.{Reconciler}
use helm_operator_plugins.Reconciler.Actions.{get_release_state}
use helm_operator_plugins.Fake.{
  UpgradeCall, ActionClient, new_action_client, get, upgrade, fake_client,
  new_fake_action_client_getter, fake_action_client_for,
}
use helm_operator_plugins.Fake.Calls.{IsDryRun, client_within, get_release_state-calls}
use helm_operator_plugins.Release.{Release}
use helm_operator_plugins.Prelude.{length, ok, ◌≡◌, refl, ◌⊎◌, none, [], ◌∷◌}

abbrev app : Unstructured
app = record {
  gvk = record { group = "g"; version = "v1"; kind = "Web" };
  name = "web";
  namespace = "ns";
  annotations = [];
  owner_references = [];
  finalizers = [];
  deletion_timestamp = none;
  spec = none;
  status = absent;
}

abbrev recording : Cluster
recording = record {
  State = ActionClient;
  get = λ ns n c. (ok app, c);
  update = λ o c. (ok o, c);
  update_status = λ o c. (ok o, c);
  retry = λ test f c. f c;
  poll = λ test o c. ((ok tt, o), c);
  to_unstructured = λ st. ok end;
  from_unstructured = λ m. record { conditions = []; deployed_release = none };
  remove_finalizer = λ fs f. [];
}

abbrev reconciler : Reconciler ActionClient
reconciler = record {
  action_client_for = fake_action_client_for (new_fake_action_client_getter fake_client none);
  translate = default_translator;
  map_values = default_mapper;
  pre_hooks = [];
  post_hooks = [];
  chrt = record { name = "c" };
  override_values = [];
  reconcile_period = 60;
  max_release_history = 10;
  pause_handler = none;
  install_annotations = [];
  upgrade_annotations = [];
  uninstall_annotations = [];
  expand_env = λ t. t;
  parse_into = λ t m. (none, m);
  coalesce_values = λ c v. ok v;
  error_text = λ e. "";
}

abbrev rel : Release
rel = record { name = "web"; version = 1; manifest = "m"; info = none; labels = [] }

-- A client that finds a release, and fails to upgrade it.
abbrev found : ActionClient
found = record new_action_client { handle_get = ok rel }

abbrev put : ActionClient → ActionClient → ActionClient
put c old = c

abbrev after : ActionClient
after =
    (get_release_state recording reconciler (client_within recording reconciler (λ c. c) put) app
      end found).1

asked_once : length after.upgrades ≡ 1
unfolding get_release_state get upgrade
asked_once = refl

get_release_state-calls_example :
    (after.gets ≡ record { name = "web"; opts = [] } ∷ [])
    × (after.installs ≡ [])
    × (after.uninstalls ≡ [])
    × (after.reconciles ≡ [])
    × ((after.upgrades ≡ [])
        ⊎ ((call : UpgradeCall) × (after.upgrades ≡ call ∷ [])
            × (call.name ≡ "web")
            × IsDryRun call.opts))
get_release_state-calls_example =
    get_release_state-calls recording reconciler (λ c. c) put app end found (λ c t. refl)
