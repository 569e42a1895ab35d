-- ===== src/Reconciler/Lifecycle/Data.antt =====
-- A server with at most one resource of the kind Web, ns/web, and a helm with at most one release, web,
-- and settings for them.
use helm_operator_plugins.Reconciler.Loop.Data.{rel, broken_helm, plain_actions}
use helm_operator_plugins.Reconciler.Lifecycle.{View}
use helm_operator_plugins.SpecValues.{default_mapper, default_translator}
use helm_operator_plugins.Reconciler.{Reconciler}
use helm_operator_plugins.Client.{UninstallAction}
use helm_operator_plugins.Client.Actions.{Helm, action_interface}
use helm_operator_plugins.Cluster.{Cluster}
use helm_operator_plugins.Object.{end, GroupVersionKind, Unstructured}
use helm_operator_plugins.Release.{Release}
use helm_operator_plugins.Prelude.{
  if◌then◌else◌, is_some, not_found, api, release_not_found, Result, ok, err, String, Bool, true,
  false, ◌&&◌, ◌||◌, Option, none, some, List, [], ◌∷◌, ◌==◌,
}

abbrev pub World : Type 0
World = Option Unstructured × Bool

abbrev pub finalizers_of : Option Unstructured → Option (List String)
finalizers_of none = none
finalizers_of (some o) = some o.finalizers

abbrev pub view : View World
view = record { finalizers = λ s. finalizers_of s.0; released = λ s. s.1 }

-- An update that takes the last finalizer of an object that is being deleted removes it.
abbrev pub ends : Unstructured → Bool
ends o = is_some o.deletion_timestamp && elim o.finalizers [ [] ↦ true | f ∷ fs ↦ false ]

abbrev pub stored : Unstructured → Option Unstructured
stored o = if ends o then none else some o

-- The resource that the state is about.
abbrev pub web : GroupVersionKind
web = record { group = "g"; version = "v1"; kind = "Web" }

abbrev pub is_web : Unstructured → Bool
is_web o = o.namespace == "ns" && o.name == "web" && o.gvk.kind == "Web"

-- The object as it is stored is answered under the kind and the name that were asked for.
abbrev pub read : String → String → Option Unstructured → Result Unstructured
read namespace name none = err (api not_found)
read namespace name (some o) =
    if namespace == "ns" && name == "web"
    then ok (record o { gvk = web; namespace = namespace; name = name })
    else err (api not_found)

-- Updates of other objects are accepted, and do not touch the resource.
abbrev pub written : Unstructured → World → Result Unstructured × World
written o (none, b) = if is_web o then (err (api not_found), (none, b)) else (ok o, (none, b))
written o (some p, b) = if is_web o then (ok o, (stored o, b)) else (ok o, (some p, b))

abbrev pub server : Cluster
server = record {
  State = World;
  get = λ ns n s. (read ns n s.0, s);
  update = written;
  update_status = λ o s. elim s.0 [ none ↦ (err (api not_found), s) | some _ ↦ (ok o, s) ];
  retry = λ test f s. f s;
  poll = λ test o s.
      let ((done, o'), t) = test o s in
      elim done [ err e ↦ ((err e, o'), t) | ok _ ↦ ((ok tt, o'), t) ];
  to_unstructured = λ st. ok end;
  from_unstructured = λ m. record { conditions = []; deployed_release = none };
  remove_finalizer = λ fs f. [];
}

-- helm over such a state: other releases than "web" are not there, and do not touch it. An uninstall
-- that is a dry run, or keeps the history, keeps the release.
abbrev pub removal : UninstallAction → String → World → Result Release × World
removal a name (o, b) =
    if name == "web" && b
    then (ok rel, (o, a.dry_run || a.keep_history))
    else if a.ignore_not_found
    then (ok rel, (o, b))
    else (err release_not_found, (o, b))

abbrev pub world_helm : Helm World
world_helm = record {
  Doc = String;
  new_get = broken_helm.new_get;
  new_history = broken_helm.new_history;
  new_install = broken_helm.new_install;
  new_upgrade = broken_helm.new_upgrade;
  new_uninstall = broken_helm.new_uninstall;
  new_rollback = broken_helm.new_rollback;
  run_get = λ a n s. if n == "web" && s.1 then (ok rel, s) else (err release_not_found, s);
  run_history = λ a n s. (ok [], s);
  newest_first = λ rels. rels;
  run_install = λ a chrt vals s. ((some rel, none), (s.0, a.release_name == "web" || s.1));
  run_upgrade = λ a n chrt vals s. ((some rel, none), s);
  run_uninstall = removal;
  run_rollback = λ a n s. (ok tt, s);
  build = λ manifest. ok [];
  visit = λ f infos s. (ok tt, s);
  get_object = λ ns n s. (err (api not_found), s);
  create_object = λ ns d s. (ok d, s);
  patch_object = λ ns n type patch s. (ok patch, s);
  patch_lib = broken_helm.patch_lib;
}

abbrev pub driven : Reconciler World
driven = record {
  action_client_for = λ o s. (ok (action_interface world_helm plain_actions), s);
  translate = default_translator;
  map_values = default_mapper;
  pre_hooks = [];
  post_hooks = [];
  chrt = record { name = "c" };
  override_values = [];
  reconcile_period = 60;
  max_release_history = 10;
  pause_handler = none;
  install_annotations = [];
  upgrade_annotations = [];
  uninstall_annotations = [];
  expand_env = λ t. t;
  parse_into = λ t m. (none, m);
  coalesce_values = λ c v. ok v;
  error_text = λ e. "";
}

abbrev pub nothing : World
nothing = (none, false)
