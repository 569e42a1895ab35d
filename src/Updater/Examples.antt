-- ===== src/Updater/Examples.antt =====
-- The theorems on updates at concrete data.
use helm_operator_plugins.Object.{end, HelmAppStatus, absent, Unstructured}
use helm_operator_plugins.Cluster.{Cluster}
use helm_operator_plugins.Controllerutil.{namespace_scope, supports_owner_reference}
use helm_operator_plugins.Controllerutil.Laws.{may_own, supports_owner_reference_lem}
use helm_operator_plugins.Prelude.{conflict, api, ok, err, ℕ, ◌+◌, ◌≡◌, refl, none, [], ◌∷◌}
use helm_operator_plugins.Updater.{Updater, new, update_status, remove_deployed_release}
use helm_operator_plugins.Updater.Applying.{ensure_deployed_release-IsHonest, AllHonest, IsIdle}

abbrev plain : HelmAppStatus
plain = record { conditions = []; deployed_release = none }

abbrev resource : Unstructured
resource = record {
  gvk = record { group = "g"; version = "v1"; kind = "Web" };
  name = "web";
  namespace = "ns";
  annotations = [];
  owner_references = [];
  finalizers = [];
  deletion_timestamp = none;
  spec = none;
  status = absent;
}

-- Every update of a status is refused.
abbrev cluster : Cluster
cluster = record {
  State = ℕ;
  get = λ ns n s. (ok resource, s + 1);
  update = λ o s. (ok o, s + 1);
  update_status = λ o s. (err (api conflict), s + 1);
  retry = λ test f s. f s;
  poll = λ test o s. ((ok tt, o), s + 1);
  to_unstructured = λ st. ok end;
  from_unstructured = λ m. plain;
  remove_finalizer = λ fs f. [];
}

abbrev quiet : Updater
quiet = update_status new (remove_deployed_release ∷ [])

nothing_to_do : IsIdle 5 plain quiet.update_status_funcs
unfolding remove_deployed_release
nothing_to_do = (refl, tt)

honest : AllHonest quiet.update_status_funcs
unfolding remove_deployed_release
honest = (ensure_deployed_release-IsHonest none, tt)

supports_owner_reference_lem_example :
    supports_owner_reference (λ g. ok namespace_scope) resource resource
    ≡ ok (may_own namespace_scope namespace_scope "ns" "ns")
supports_owner_reference_lem_example =
    supports_owner_reference_lem (λ g. ok namespace_scope) resource resource namespace_scope
      namespace_scope refl refl
