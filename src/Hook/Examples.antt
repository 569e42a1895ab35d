-- ===== src/Hook/Examples.antt =====
-- Tests, and the theorems at concrete data: a pod, and a List of one pod, over a count of watches.
use helm_operator_plugins.Object.{GroupVersionKind, absent, Unstructured}
use helm_operator_plugins.Controllerutil.{namespace_scope, RestMapper, supports_owner_reference}
use helm_operator_plugins.Hook.{
  WatchLib, Watching, same_kind, is_watched, list_kind, watch_document, run_hook,
}
use helm_operator_plugins.Hook.Watched.{list_kind_only}
use helm_operator_plugins.Release.{Release}
use helm_operator_plugins.Prelude.{
  if◌then◌else◌, ok, err, ℕ, suc, String, ◌≡◌, refl, sym, ap, false, none, [], ◌∷◌, ◌==◌,
}

abbrev pod_kind : GroupVersionKind
pod_kind = record { group = ""; version = "v1"; kind = "Pod" }

abbrev of_kind : GroupVersionKind → Unstructured
of_kind k = record {
  gvk = k;
  name = "web";
  namespace = "default";
  annotations = [];
  owner_references = [];
  finalizers = [];
  deletion_timestamp = none;
  spec = none;
  status = absent;
}

abbrev counting : WatchLib ℕ Unstructured
counting = record {
  split_manifests = λ m. m ∷ [];
  unmarshal = λ r. ok (of_kind (if r == "list" then list_kind else pod_kind));
  decoded = λ d. d;
  list_items = λ d. ok (of_kind pod_kind) ∷ [];
  watch = λ handler o n. (ok tt, suc n);
  normalize = λ s. s;
}

abbrev app : Unstructured
app = of_kind (record { group = "example.com"; version = "v1"; kind = "App" })

abbrev namespaced : RestMapper
namespaced k = ok namespace_scope

abbrev web : String → Release
web manifest = record { name = "web"; version = 1; manifest = manifest; info = none; labels = [] }

abbrev at_start : Watching ℕ
at_start = record { outside = 0; watches = [] }

abbrev one_watch : Watching ℕ
one_watch = record { outside = 1; watches = pod_kind ∷ [] }

watches_once : run_hook counting namespaced app (web "pod") at_start ≡ (ok tt, one_watch)
unfolding run_hook supports_owner_reference
watches_once = refl

watches_list_twice :
    run_hook counting namespaced app
      (web "list")
      (run_hook counting namespaced app (web "list") at_start).1
    ≡ (ok tt, record { outside = 2; watches = list_kind ∷ list_kind ∷ [] })
unfolding run_hook supports_owner_reference
watches_list_twice = refl

pod_plain : (d : Unstructured) → counting.unmarshal "pod" ≡ ok d → same_kind d.gvk list_kind ≡ false
pod_plain d e = ap (λ r. elim r [ ok o ↦ same_kind o.gvk list_kind | err _ ↦ false ]) (sym e)

list_kind_only_example :
    is_watched pod_kind
      (watch_document counting namespaced app (of_kind list_kind) at_start).1.watches
    ≡ false
list_kind_only_example =
    list_kind_only counting namespaced app (of_kind list_kind) pod_kind at_start refl refl refl
