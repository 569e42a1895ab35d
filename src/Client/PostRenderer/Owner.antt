-- ===== src/Client/PostRenderer/Owner.antt =====
-- ownerPostRenderer (pkg/client/postrenderer.go): the renderer that marks each resource of a release
-- with the custom resource, by an owner reference or by annotations.
pub mod Marked
use helm_operator_plugins.Object.{OwnerReference, Unstructured}
use helm_operator_plugins.Controllerutil.{RestMapper, supports_owner_reference}
use helm_operator_plugins.Manifestutil.{has_resource_policy_keep}
use helm_operator_plugins.Client.PostRenderer.{PostRenderer, single}
use helm_operator_plugins.Exec.{Exec}
use helm_operator_plugins.Prelude.{
  if◌then◌else◌, Error, Result, ok, err, String, ◌<>◌, ◌&&◌, not, Option, none, some, List, [], ◌∷◌,
  ◌++◌,
}

-- kube.Interface.Build and the visit of a ResourceList; runtime.DefaultUnstructuredConverter;
-- metav1.NewControllerRef for the owner with its own kind; SetOwnerAnnotations of operator-lib;
-- sigs.k8s.io/yaml; strings.ToLower after strings.TrimSpace. A visit carries what is written.
pub record RenderLib : Type 1 where
  pub Info : Type 0
  pub build : String → Result (List Info)
  pub visit : (Info → Option Error → Exec String (Unit {0})) → List Info → Exec String (Unit {0})
  pub to_unstructured : Info → Result Unstructured
  pub new_controller_ref : Unstructured → OwnerReference
  pub set_owner_annotations : Unstructured → Unstructured → Result Unstructured
  pub marshal : Unstructured → Result String
  pub normalize : String → String

module _ (lib : RenderLib) (rest_mapper : RestMapper) (owner : Unstructured) where
  -- From SupportsOwnerReference on: the resource with its mark.
  unfoldable pub mark_owner : Unstructured → Result Unstructured
  unfolding supports_owner_reference has_resource_policy_keep
  mark_owner u = elim (supports_owner_reference rest_mapper owner u) [
    | err e ↦ err e
    | ok use_owner_ref ↦
        if use_owner_ref && not (has_resource_policy_keep lib.normalize u.annotations)
        then ok (record u {
          owner_references = u.owner_references ++ (lib.new_controller_ref owner ∷ []);
        })
        else lib.set_owner_annotations owner u
  ]

  -- The function that visits the resources; WriteString to a buffer does not fail.
  unfoldable pub render_resource : lib.Info → Option Error → Exec String (Unit {0})
  unfolding mark_owner
  render_resource r (some e) out = (err e, out)
  render_resource r none out = elim (lib.to_unstructured r) [
    | err e ↦ (err e, out)
    | ok u ↦ elim (mark_owner u) [
      | err e ↦ (err e, out)
      | ok marked ↦ elim (lib.marshal marked) [
        | err e ↦ (err e, out)
        | ok out_data ↦ (ok tt, out <> ("---\n" <> out_data))
      ]
    ]
  ]

  unfoldable pub render_owned : String → Result String
  unfolding render_resource
  render_owned manifest = elim (lib.build manifest) [
    | err e ↦ err e
    | ok resource_list ↦
        let (done, out) = lib.visit render_resource resource_list "" in
        elim done [ err e ↦ err e | ok _ ↦ ok out ]
  ]

  -- DefaultPostRendererFunc
  unfoldable pub owner_post_renderer : PostRenderer
  unfolding render_owned
  owner_post_renderer = single render_owned
