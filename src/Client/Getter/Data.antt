-- ===== src/Client/Getter/Data.antt =====
-- Libraries, getters and resources that record what they are given.
use helm_operator_plugins.Object.{absent, OwnerReference, Unstructured}
use helm_operator_plugins.Controllerutil.{namespace_scope, RestMapper}
use helm_operator_plugins.Storage.Memory.{memory_api}
use helm_operator_plugins.Client.Options.{
  InstallAction, UpgradeAction, with_install_post_renderer, with_upgrade_post_renderer,
}
use helm_operator_plugins.Client.Config.{
  ConfigLib, ActionConfigGetter, fill_defaults, Configuration,
}
use helm_operator_plugins.Client.PostRenderer.{single, chained, PostRenderers}
use helm_operator_plugins.Client.PostRenderer.Owner.{RenderLib}
use helm_operator_plugins.Client.Getter.{ActionClientGetter, all_renderers}
use helm_operator_plugins.Client.Actions.{ActionClient}
use helm_operator_plugins.Prelude.{
  Error, ok, String, ◌<>◌, true, false, Option, none, List, [], ◌∷◌,
}
use helm_operator_plugins.Exec.{Exec, pure, ◌>>◌}

abbrev pub of_kind : String → String → Unstructured
of_kind kind name = record {
  gvk = record { group = ""; version = "v1"; kind = kind };
  name = name;
  namespace = "default";
  annotations = [];
  owner_references = [];
  finalizers = [];
  deletion_timestamp = none;
  spec = none;
  status = absent;
}

abbrev pub app : Unstructured
app = of_kind "App" "web"

abbrev pub pod : Unstructured
pod = of_kind "Pod" "web-0"

abbrev pub ref_to : Unstructured → OwnerReference
ref_to obj = record {
  api_version = "v1";
  kind = "App";
  name = obj.name;
  uid = obj.name;
  controller = true;
  block_owner_deletion = true;
}

unfoldable pub visit_all :
    (String → Option Error → Exec String (Unit {0})) → List String → Exec String (Unit {0})
visit_all f [] = pure tt
visit_all f (r ∷ rs) = do f r none; visit_all f rs

abbrev pub renders : RenderLib
renders = record {
  Info = String;
  build = λ m. ok (m ∷ []);
  visit = visit_all;
  to_unstructured = λ r. ok pod;
  new_controller_ref = ref_to;
  set_owner_annotations = λ o u.
      ok (record u { annotations = ("operator-sdk/primary-resource", o.name) ∷ u.annotations });
  marshal = λ u. ok u.name;
  normalize = λ s. s;
}

abbrev pub namespaced : RestMapper
namespaced k = ok namespace_scope

abbrev pub owned_pod : Unstructured
owned_pod = record pod { owner_references = ref_to app ∷ [] }

abbrev pub clients : ConfigLib
clients = record {
  RestConfig = String;
  DiscoveryClient = Unit {0};
  KubeClient = String;
  Driver = String;
  discovery_client = λ c. ok tt;
  copy_config = λ c. c;
  new_kube = λ c rm d ns. ns;
  secrets_for = λ c. ok (λ ns. memory_api);
  new_secrets = λ secrets. "secrets";
  new_controller_ref = ref_to;
}

abbrev pub filled_getter : ActionConfigGetter clients
filled_getter = fill_defaults clients (record {
  base_rest_config = "cfg";
  rest_mapper = namespaced;
  discovery_client = tt;
  object_to_client_rest_config = none;
  object_to_client_namespace = none;
  object_to_storage_rest_config = none;
  object_to_storage_driver = none;
  object_to_storage_namespace = none;
  disable_storage_owner_ref_injection = false;
})

abbrev pub app_config : Configuration clients
app_config = record {
  rest_client_getter = record {
    rest_config = "cfg";
    rest_mapper = namespaced;
    cached_discovery_client = tt;
    namespace = "default";
  };
  releases = "secrets";
  kube_client = "default";
}

abbrev pub app_getter : ActionClientGetter clients
app_getter = record {
  acg = λ obj. ok app_config;
  default_get_opts = [];
  default_history_opts = [];
  default_install_opts = [];
  default_upgrade_opts = [];
  default_uninstall_opts = [];
  enable_failure_rollbacks = true;
  install_failure_uninstall_opts = [];
  upgrade_failure_rollback_opts = [];
  post_renderer_providers = (λ rm kube obj. single (λ m. ok (m <> "x"))) ∷ [];
}

abbrev pub app_chain : PostRenderers
app_chain =
    all_renderers clients (λ kube. renders) app_getter.post_renderer_providers namespaced "default"
      app

abbrev pub app_client : ActionClient
app_client = record {
  default_get_opts = [];
  default_history_opts = [];
  default_install_opts = with_install_post_renderer (chained app_chain) ∷ [];
  default_upgrade_opts = with_upgrade_post_renderer (chained app_chain) ∷ [];
  default_uninstall_opts = [];
  enable_failure_rollbacks = true;
  install_failure_uninstall_opts = [];
  upgrade_failure_rollback_opts = [];
}

abbrev pub fresh_install : InstallAction
fresh_install = record {
  release_name = "";
  namespace = "";
  disable_hooks = false;
  description = "";
  post_renderer = none;
}

abbrev pub fresh_upgrade : UpgradeAction
fresh_upgrade = record {
  namespace = "";
  max_history = 0;
  dry_run = false;
  dry_run_option = "";
  force = false;
  disable_hooks = false;
  description = "";
  post_renderer = none;
}
