-- ===== src/Run/Data.antt =====
-- Libraries that count the calls, a manager over them, an entry of the watches file and flags.
use helm_operator_plugins.Object.{Values, Chart, absent}
use helm_operator_plugins.Controllerutil.{namespace_scope}
use helm_operator_plugins.Hook.{WatchLib}
use helm_operator_plugins.Storage.Memory.{memory_api}
use helm_operator_plugins.Client.Config.{ConfigLib}
use helm_operator_plugins.Client.PostRenderer.Owner.{RenderLib}
use helm_operator_plugins.Client.Actions.{Helm}
use helm_operator_plugins.Client.Patch.{crd_v1}
use helm_operator_plugins.Flags.{Flags}
use helm_operator_plugins.Watches.{Watch}
use helm_operator_plugins.SpecValues.{ParseInto}
use helm_operator_plugins.Reconciler.Settings.{Kit, Settings, fresh_settings}
use helm_operator_plugins.Reconciler.Settings.Valid.{Choice}
use helm_operator_plugins.Reconciler.Setup.{Manager, setup_with_manager}
use helm_operator_plugins.Run.{reconciler_for}
use helm_operator_plugins.Prelude.{
  pos, Error, release_not_found, message, Result, ok, err, ℕ, ◌+◌, String, true, false, none, some,
  List, [], ◌∷◌,
}

abbrev pub kit : Kit
kit = record {
  Client = Unit {0};
  EventRecorder = Unit {0};
  Logger = Unit {0};
  LabelSelector = Unit {0};
  Controller = String;
  no_selector = tt;
}

abbrev pub clients : ConfigLib
clients = record {
  RestConfig = String;
  DiscoveryClient = Unit {0};
  KubeClient = String;
  Driver = String;
  discovery_client = λ c. ok tt;
  copy_config = λ c. c;
  new_kube = λ c rm d ns. ns;
  secrets_for = λ c. ok (λ ns. memory_api);
  new_secrets = λ secrets. "secrets";
  new_controller_ref = λ obj. record {
    api_version = "v1";
    kind = "App";
    name = obj.name;
    uid = obj.name;
    controller = true;
    block_owner_deletion = true;
  };
}

abbrev pub renders : RenderLib
renders = record {
  Info = String;
  build = λ m. ok [];
  visit = λ f rs out. (ok tt, out);
  to_unstructured = λ r. err (message r);
  new_controller_ref = clients.new_controller_ref;
  set_owner_annotations = λ o u. ok u;
  marshal = λ u. ok u.name;
  normalize = λ s. s;
}

abbrev pub helm : Helm ℕ
helm = record {
  Doc = String;
  new_get = record { version = 0 };
  new_history = record { max = 0 };
  new_install = record {
    release_name = "";
    namespace = "";
    disable_hooks = false;
    description = "";
    post_renderer = none;
  };
  new_upgrade = record {
    namespace = "";
    max_history = 0;
    dry_run = false;
    dry_run_option = "";
    force = false;
    disable_hooks = false;
    description = "";
    post_renderer = none;
  };
  new_uninstall = record {
    disable_hooks = false;
    dry_run = false;
    keep_history = false;
    ignore_not_found = false;
    description = "";
  };
  new_rollback = record { force = false; max_history = 0 };
  run_get = λ a n s. (err release_not_found, s + 1);
  run_history = λ a n s. (ok [], s + 1);
  newest_first = λ rs. rs;
  run_install = λ a c v s. ((none, some (message "broken")), s + 1);
  run_upgrade = λ a n c v s. ((none, some (message "broken")), s + 1);
  run_uninstall = λ a n s. (err (message "stuck"), s + 1);
  run_rollback = λ a n s. (ok tt, s + 1);
  build = λ m. ok [];
  visit = λ f infos s. (ok tt, s);
  get_object = λ ns n s. (err (message "none"), s + 1);
  create_object = λ ns d s. (ok d, s + 1);
  patch_object = λ ns n t p s. (ok p, s + 1);
  patch_lib = record {
    marshal = λ d. ok d;
    as_versioned = λ d. crd_v1;
    create_patch = λ a b. ok [];
    marshal_ops = λ ops. ok "[]";
    patch_meta = λ d. ok "";
    three_way_merge_patch = λ a b c d. ok "{}";
  };
}

abbrev pub watching_nothing : WatchLib ℕ (Unit {0})
watching_nothing = record {
  split_manifests = λ m. [];
  unmarshal = λ r. ok tt;
  decoded = λ d. record {
    gvk = record { group = ""; version = ""; kind = "" };
    name = "";
    namespace = "";
    annotations = [];
    owner_references = [];
    finalizers = [];
    deletion_timestamp = none;
    spec = none;
    status = absent;
  };
  list_items = λ d. [];
  watch = λ handler o n. (ok tt, n + 1);
  normalize = λ s. s;
}

abbrev pub manager : Manager kit clients ℕ
manager = record {
  Predicate = Unit {0};
  Doc = Unit {0};
  get_client = tt;
  get_config = "cfg";
  get_rest_mapper = λ gvk. ok namespace_scope;
  get_event_recorder_for = λ name. tt;
  default_log = tt;
  to_lower = λ s. s;
  add_known_type = λ gvk n. n + 1;
  add_to_group_version = λ g v n. n + 1;
  new_controller = λ name workers n. (ok name, n + 1);
  selector_size = λ s. 0;
  label_selector_predicate = λ s. ok tt;
  watch = λ c source n. (ok tt, n + 1);
  watch_lib = λ c. watching_nothing;
  read_watches = λ c n. [];
  write_watches = λ c ws n. n;
  helm_over = λ config. helm;
  render = λ kube. renders;
}

abbrev pub entry : Watch (Unit {0})
entry = record {
  gvk = record { group = "g"; version = "v1"; kind = "Web" };
  chart_path = "charts/web";
  watch_dependent_resources = some true;
  override_values = none;
  reconcile_period = some (pos 5);
  max_concurrent_reconciles = none;
  selector = some tt;
  chart = some (record { name = "web" });
}

abbrev pub flags : Flags
flags = record {
  reconcile_period = pos 60;
  watches_file = "watches.yaml";
  metrics_bind_address = "";
  leader_election = false;
  leader_election_id = "";
  leader_election_namespace = "";
  max_concurrent_reconciles = pos 4;
  probe_addr = "";
  enable_http2 = false;
  secure_metrics = false;
  flag_set = none;
}

abbrev pub plain : String → String
plain s = s

abbrev pub parse : ParseInto
parse t m = (none, m)

abbrev pub choices : List (Choice kit ℕ plain parse)
choices =
    Choice.chart_is (record { name = "web" })
    ∷ Choice.group_version_kind_is entry.gvk
    ∷ Choice.period_is (pos 60)
    ∷ []

abbrev pub chosen_settings : Settings kit ℕ
chosen_settings = record (fresh_settings kit ℕ) {
  chrt = some (record { name = "web" });
  gvk = some entry.gvk;
  reconcile_period = pos 60;
}

-- SetupWithManager at the reconciler that New has made of the choices.
abbrev pub done_or : Result (Settings kit ℕ) → Settings kit ℕ → Settings kit ℕ
done_or (ok r) start = r
done_or (err e) start = start

-- What SetupWithManager leaves, and the count of the calls.
abbrev pub ready_of : Settings kit ℕ → Settings kit ℕ
ready_of r = done_or (setup_with_manager manager r 0).0 r

abbrev pub calls_of : Settings kit ℕ → ℕ
calls_of r = (setup_with_manager manager r 0).1

abbrev pub kept_values : Chart → Values → Result Values
kept_values c v = ok v

abbrev pub text_of : Error → String
text_of e = "failed"

-- The reconciler of the entry.
abbrev pub of_entry : Settings kit ℕ
of_entry = done_or (reconciler_for kit ℕ plain parse flags entry) (fresh_settings kit ℕ)
