-- ===== src/Hook.antt =====
-- pkg/reconciler/internal/hook/hook.go: the post-hook that watches the kinds of a release's
-- resources. The mutex, which makes Exec one step, and the log are left out.
pub mod Watched
mod Examples
use helm_operator_plugins.Object.{GroupVersionKind, Unstructured}
use helm_operator_plugins.Controllerutil.{RestMapper, supports_owner_reference}
use helm_operator_plugins.Manifestutil.{has_resource_policy_keep}
use helm_operator_plugins.Exec.{Exec, pure, lift, ◌>>=◌, ◌>>◌}
use helm_operator_plugins.Release.{Release}
use helm_operator_plugins.Prelude.{
  if◌then◌else◌, Dict, Result, ok, err, String, Bool, false, ◌&&◌, ◌||◌, not, List, [], ◌∷◌, ◌==◌,
}

-- How a watch finds the custom resource: by owner references or by annotations.
pub data Handler : Type 0 where
  for_owner for_annotation : Handler

-- releaseutil.SplitManifests, the YAML decoder and EachListItem, which visits the items in order
-- up to a malformed one; controller.Watch; strings.ToLower after strings.TrimSpace
pub record WatchLib (S Doc : Type 0) : Type 0 where
  pub split_manifests : String → List String
  pub unmarshal : String → Result Doc
  pub decoded : Doc → Unstructured
  pub list_items : Doc → List (Result Unstructured)
  pub watch : Handler → Unstructured → Exec S (Unit {0})
  pub normalize : String → String

-- The watcher's map of watched kinds, beside the outside state.
pub record Watching (S : Type 0) : Type 0 where
  pub outside : S
  pub watches : List GroupVersionKind

abbrev pub same_kind : GroupVersionKind → GroupVersionKind → Bool
same_kind a b = a.group == b.group && a.version == b.version && a.kind == b.kind

abbrev pub is_empty : GroupVersionKind → Bool
is_empty a = a.group == "" && a.version == "" && a.kind == ""

abbrev pub is_watched : GroupVersionKind → List GroupVersionKind → Bool
is_watched a [] = false
is_watched a (b ∷ bs) = same_kind b a || is_watched a bs

abbrev pub list_kind : GroupVersionKind
list_kind = record { group = ""; version = "v1"; kind = "List" }

-- The handler of the watch for a resource with these annotations.
unfoldable pub handler_for : (String → String) → Bool → Dict String → Handler
unfolding has_resource_policy_keep
handler_for normalize use_owner_ref annotations =
    if use_owner_ref && not (has_resource_policy_keep normalize annotations)
    then for_owner
    else for_annotation

module _ {S Doc : Type 0} (lib : WatchLib S Doc) (rest_mapper : RestMapper)
    (owner : Unstructured) where
  unfoldable pub set_watch_on_resource :
      GroupVersionKind → Unstructured → Exec (Watching S) (Unit {0})
  unfolding handler_for
  set_watch_on_resource dep_gvk dependent w =
      if is_empty dependent.gvk
      then (ok tt, w)
      else if is_watched dependent.gvk w.watches
      then (ok tt, w)
      else elim (supports_owner_reference rest_mapper owner dependent) [
        | err e ↦ (err e, w)
        | ok use_owner_ref ↦
            let (r, t) =
              lib.watch (handler_for lib.normalize use_owner_ref dependent.annotations) dependent
                w.outside in
            elim r [
              | err e ↦ (err e, record w { outside = t })
              | ok _ ↦ (ok tt, record { outside = t; watches = dep_gvk ∷ w.watches })
            ]
      ]

  -- EachListItem with setWatchOnResource
  unfoldable pub each_list_item :
      GroupVersionKind → List (Result Unstructured) → Exec (Watching S) (Unit {0})
  unfolding set_watch_on_resource
  each_list_item dep_gvk [] = pure tt
  each_list_item dep_gvk (item ∷ items) = do
    dependent ← lift item
    set_watch_on_resource dep_gvk dependent
    each_list_item dep_gvk items

  unfoldable pub watch_document : Doc → Exec (Watching S) (Unit {0})
  unfolding each_list_item set_watch_on_resource
  watch_document d =
      let gvk = (lib.decoded d).gvk in
      if is_empty gvk
      then pure tt
      else if same_kind gvk list_kind
      then each_list_item gvk (lib.list_items d)
      else set_watch_on_resource gvk (lib.decoded d)

  unfoldable pub watch_resources : List String → Exec (Watching S) (Unit {0})
  unfolding watch_document
  watch_resources [] = pure tt
  watch_resources (r ∷ rs) = do d ← lift (lib.unmarshal r); watch_document d; watch_resources rs

  -- Exec; the order of the manifests is that of a Go map, so any.
  unfoldable pub run_hook : Release → Exec (Watching S) (Unit {0})
  unfolding watch_resources
  run_hook rel = watch_resources (lib.split_manifests rel.manifest)
