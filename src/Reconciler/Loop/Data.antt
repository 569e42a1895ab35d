-- ===== src/Reconciler/Loop/Data.antt =====
-- A cluster with one object, over a counter of calls, and settings, clients and helms for it.
use helm_operator_plugins.Object.{object, end, HelmAppStatus, absent, Unstructured}
use helm_operator_plugins.Cluster.{Cluster}
use helm_operator_plugins.Client.Options.{InstallAction, UpgradeAction}
use helm_operator_plugins.Client.Patch.{crd_v1}
use helm_operator_plugins.Client.Actions.{Helm, ActionClient, ActionInterface, action_interface}
use helm_operator_plugins.SpecValues.{default_mapper, default_translator}
use helm_operator_plugins.Reconciler.{Reconciler, uninstall_finalizer}
use helm_operator_plugins.Release.{Release}
use helm_operator_plugins.Prelude.{
  not_found, conflict, Error, api, release_not_found, message, ok, err, ℕ, ◌+◌, String, Bool, true,
  false, Option, none, some, [], ◌∷◌,
}

abbrev pub resource : Unstructured
resource = record {
  gvk = record { group = "g"; version = "v1"; kind = "Web" };
  name = "web";
  namespace = "ns";
  annotations = [];
  owner_references = [];
  finalizers = "uninstall-helm-release" ∷ [];
  deletion_timestamp = none;
  spec = some (object end);
  status = absent;
}

abbrev pub cluster : Cluster
cluster = record {
  State = ℕ;
  get = λ ns n s. (ok resource, s + 1);
  update = λ o s. (ok o, s + 1);
  update_status = λ o s. (err (api conflict), s + 1);
  retry = λ test f s. f s;
  poll = λ test o s. ((ok tt, o), s + 1);
  to_unstructured = λ st. ok end;
  from_unstructured = λ m. record { conditions = []; deployed_release = none };
  remove_finalizer = λ fs f. [];
}

abbrev pub rel : Release
rel = record {
  name = "web";
  version = 1;
  manifest = "m";
  info = some (record { status = "deployed"; notes = "" });
  labels = [];
}

abbrev pub client : ActionInterface ℕ
client = record {
  get = λ n opts s. (ok rel, s + 1);
  history = λ n opts s. (ok (rel ∷ []), s + 1);
  install = λ n ns c v os s. ((some rel, none), s + 1);
  upgrade = λ n ns c v os s. ((some rel, none), s + 1);
  uninstall = λ n os s. (err (message "locked"), s + 1);
  reconcile = λ x s. (ok tt, s + 1);
}

abbrev pub handler : Unstructured → ℕ → (Bool × Option Error) × ℕ
handler o s = ((true, none), s)

abbrev pub settings : Reconciler ℕ
settings = record {
  action_client_for = λ o s. (ok client, s);
  translate = default_translator;
  map_values = default_mapper;
  pre_hooks = [];
  post_hooks = [];
  chrt = record { name = "c" };
  override_values = [];
  reconcile_period = 60;
  max_release_history = 10;
  pause_handler = some handler;
  install_annotations = [];
  upgrade_annotations = [];
  uninstall_annotations = [];
  expand_env = λ t. t;
  parse_into = λ t m. (none, m);
  coalesce_values = λ c v. ok v;
  error_text = λ e. "";
}

abbrev pub blank : HelmAppStatus
blank = record { conditions = []; deployed_release = none }

abbrev pub bare : Unstructured
bare = record resource { finalizers = [] }

abbrev pub upgrade_defaults : UpgradeAction
upgrade_defaults = record {
  namespace = "";
  max_history = 0;
  dry_run = false;
  dry_run_option = "";
  force = false;
  disable_hooks = false;
  description = "";
  post_renderer = none;
}

abbrev pub no_install : InstallAction
no_install = record {
  release_name = "";
  namespace = "";
  disable_hooks = false;
  description = "";
  post_renderer = none;
}

abbrev pub broken_helm : Helm ℕ
broken_helm = record {
  Doc = String;
  new_get = record { version = 0 };
  new_history = record { max = 0 };
  new_install = no_install;
  new_upgrade = record {
    namespace = "";
    max_history = 0;
    dry_run = false;
    dry_run_option = "";
    force = false;
    disable_hooks = false;
    description = "";
    post_renderer = none;
  };
  new_uninstall = record {
    disable_hooks = false;
    dry_run = false;
    keep_history = false;
    ignore_not_found = false;
    description = "";
  };
  new_rollback = record { force = false; max_history = 0 };
  run_get = λ a n s. (err release_not_found, s + 1);
  run_history = λ a n s. (ok [], s + 1);
  newest_first = λ rs. rs;
  run_install = λ a c v s. ((some rel, some (message "broken")), s + 1);
  run_upgrade = λ a n c v s. ((none, some (message "broken")), s + 1);
  run_uninstall = λ a n s. (err (message "stuck"), s + 10);
  run_rollback = λ a n s. (ok tt, s + 10);
  build = λ m. ok [];
  visit = λ f infos s. (ok tt, s);
  get_object = λ ns n s. (err (api not_found), s + 1);
  create_object = λ ns d s. (ok d, s + 1);
  patch_object = λ ns n t p s. (ok p, s + 1);
  patch_lib = record {
    marshal = λ d. ok d;
    as_versioned = λ d. crd_v1;
    create_patch = λ a b. ok [];
    marshal_ops = λ ops. ok "[]";
    patch_meta = λ d. ok "";
    three_way_merge_patch = λ a b c d. ok "{}";
  };
}

abbrev pub plain_actions : ActionClient
plain_actions = record {
  default_get_opts = [];
  default_history_opts = [];
  default_install_opts = [];
  default_upgrade_opts = [];
  default_uninstall_opts = [];
  enable_failure_rollbacks = true;
  install_failure_uninstall_opts = [];
  upgrade_failure_rollback_opts = [];
}

abbrev pub open_cluster : Cluster
open_cluster = record {
  State = ℕ;
  get = λ ns n s. (ok resource, s + 1);
  update = λ o s. (ok o, s + 1);
  update_status = λ o s. (ok o, s + 1);
  retry = λ test f s. f s;
  poll = λ test o s. ((ok tt, o), s + 1);
  to_unstructured = λ st. ok end;
  from_unstructured = λ m. record { conditions = []; deployed_release = none };
  remove_finalizer = λ fs f. [];
}

abbrev pub held : Unstructured
held = record resource { finalizers = uninstall_finalizer ∷ [] }

abbrev pub gone_client : ActionInterface ℕ
gone_client = record client { uninstall = λ n os s. (err release_not_found, s + 1) }

-- A client of a helm that has no release, and settings with it.
abbrev pub first_client : ActionInterface ℕ
first_client = record client { get = λ n opts s. (err release_not_found, s + 1) }

abbrev pub first_settings : Reconciler ℕ
first_settings = record settings {
  pause_handler = none;
  action_client_for = λ o s. (ok first_client, s + 1);
}

-- Settings with the client of a helm that has no release and cannot install one.
abbrev pub broken_settings : Reconciler ℕ
broken_settings = record first_settings {
  action_client_for = λ o s. (ok (action_interface broken_helm plain_actions), s + 1);
}

-- A client of a helm whose chart gives another manifest than the release has, and settings.
abbrev pub newer : Release
newer = record rel { version = 2; manifest = "m2" }

abbrev pub upgrading_client : ActionInterface ℕ
upgrading_client = record client { upgrade = λ n ns c v os s. ((some newer, none), s + 1) }

abbrev pub upgrading_settings : Reconciler ℕ
upgrading_settings = record first_settings {
  action_client_for = λ o s. (ok upgrading_client, s + 1);
}
