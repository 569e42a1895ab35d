-- ===== src/Client/Examples.antt =====
-- The theorems on helm's actions at concrete data: an install and an upgrade that fail.
use helm_operator_plugins.Object.{end, Chart, OwnerReference}
use helm_operator_plugins.Client.{apply_options}
use helm_operator_plugins.Client.Options.{InstallAction, UpgradeAction}
use helm_operator_plugins.Client.Patch.{crd_v1, PatchLib}
use helm_operator_plugins.Client.Actions.{
  Helm, ActionClient, run_uninstall, install, rollback, upgrade,
}
use helm_operator_plugins.Client.Actions.Failures.{Causes, install_failed, upgrade_failed}
use helm_operator_plugins.Client.PostRenderer.{PostRenderer, single}
use helm_operator_plugins.Client.OwnerRef.{OwnerRefSecretClient}
use helm_operator_plugins.Storage.{Secret}
use helm_operator_plugins.Release.{Release}
use helm_operator_plugins.Prelude.{
  not_found, Error, api, release_not_found, message, ok, err, ℕ, ◌+◌, String, ◌<>◌, ◌≡◌, refl, true,
  false, none, some, [], ◌∷◌, ◌++◌,
}

abbrev half : Release
half = record { name = "web"; version = 1; manifest = ""; info = none; labels = [] }

abbrev lib : PatchLib String
lib = record {
  marshal = λ d. ok d;
  as_versioned = λ d. crd_v1;
  create_patch = λ a b. ok (record { operation = "remove"; path = "/x"; value = none } ∷ []);
  marshal_ops = λ ops. ok "[]";
  patch_meta = λ d. ok "";
  three_way_merge_patch = λ a b c d. ok "{}";
}

abbrev install_defaults : InstallAction
install_defaults = record {
  release_name = "";
  namespace = "";
  disable_hooks = false;
  description = "";
  post_renderer = none;
}

abbrev upgrade_defaults : UpgradeAction
upgrade_defaults = record {
  namespace = "";
  max_history = 3;
  dry_run = false;
  dry_run_option = "";
  force = false;
  disable_hooks = false;
  description = "";
  post_renderer = none;
}

abbrev helm : Helm ℕ
helm = record {
  Doc = String;
  new_get = record { version = 0 };
  new_history = record { max = 0 };
  new_install = install_defaults;
  new_upgrade = upgrade_defaults;
  new_uninstall = record {
    disable_hooks = false;
    dry_run = false;
    keep_history = false;
    ignore_not_found = false;
    description = "";
  };
  new_rollback = record { force = false; max_history = 0 };
  run_get = λ a n s. (err release_not_found, s + 1);
  run_history = λ a n s. (ok [], s + 1);
  newest_first = λ rs. rs;
  run_install = λ a c v s. ((some half, some (message "broken")), s + 1);
  run_upgrade = λ a n c v s. ((some half, some (message "broken")), s + 1);
  run_uninstall = λ a n s. (err (message "stuck"), s + 10);
  run_rollback = λ a n s. (ok tt, s + 10);
  build = λ m. ok [];
  visit = λ f infos s. (ok tt, s);
  get_object = λ ns n s. (err (api not_found), s + 1);
  create_object = λ ns d s. (ok d, s + 1);
  patch_object = λ ns n t p s. (ok p, s + 1);
  patch_lib = lib;
}

abbrev actions : ActionClient
actions = record {
  default_get_opts = [];
  default_history_opts = [];
  default_install_opts = [];
  default_upgrade_opts = [];
  default_uninstall_opts = [];
  enable_failure_rollbacks = true;
  install_failure_uninstall_opts = [];
  upgrade_failure_rollback_opts = [];
}

no_install_options : apply_options ([] ++ []) install_defaults ≡ ok install_defaults
unfolding apply_options
no_install_options = refl

no_upgrade_options : apply_options ([] ++ []) upgrade_defaults ≡ ok upgrade_defaults
unfolding apply_options
no_upgrade_options = refl

abbrev some_chart : Chart
some_chart = record { name = "c" }

install_failed_example :
    (e' : Error) × ((install helm actions "web" "ns" some_chart end [] 0).0.1 ≡ some e')
    × Causes (message "broken") e'
    × ((install helm actions "web" "ns" some_chart end [] 0).1
        ≡ (run_uninstall helm actions "web" [] 1).1)
install_failed_example =
    install_failed helm actions "web" "ns" some_chart end [] install_defaults (some half)
      (message "broken") 0 1 no_install_options refl

upgrade_failed_example :
    (e' : Error) × ((upgrade helm actions "web" "ns" some_chart end [] 0).0.1 ≡ some e')
    × Causes (message "broken") e'
    × ((upgrade helm actions "web" "ns" some_chart end [] 0).1
        ≡ (rollback helm actions "web"
            ((λ r. ok (record r { force = true; max_history = upgrade_defaults.max_history })) ∷ [])
            1).1)
upgrade_failed_example =
    upgrade_failed helm actions "web" "ns" some_chart end [] upgrade_defaults (some half)
      (message "broken") 0 1 no_upgrade_options refl

abbrev upcase : PostRenderer
upcase = single (λ m. ok (m <> "A"))

abbrev owner : OwnerReference
owner = record {
  api_version = "g/v1";
  kind = "Web";
  name = "web";
  uid = "u";
  controller = true;
  block_owner_deletion = true;
}

abbrev owning : OwnerRefSecretClient
owning = record { matches = none; refs = owner ∷ [] }

abbrev secret : Secret
secret = record {
  type = "";
  name = "s";
  uid = "";
  labels = [];
  owner_references = [];
  immutable = false;
  payload = [];
}
