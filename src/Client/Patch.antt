-- ===== src/Client/Patch.antt =====
-- createPatch and createJSONMergePatch of pkg/client/actionclient.go. Encoded JSON is `Fields` or a
-- text; the comparison of two documents is jsonpatch's and strategicpatch's.
pub mod Kept
use helm_operator_plugins.Object.{Value}
use helm_operator_plugins.Prelude.{
  if◌then◌else◌, is_some, keep, Result, ok, err, String, Bool, true, false, ◌&&◌, ◌||◌, not, Option,
  none, some, List, [], ◌∷◌, ◌==◌,
}

-- What helm makes of the expected object when it looks for its Go type (helmkube.AsVersioned)
pub data Versioned : Type 0 where
  unstructured_object crd_v1beta1 crd_v1 other_type : Versioned

pub data PatchType : Type 0 where
  json_patch strategic_merge_patch : PatchType

-- jsonpatch.JsonPatchOperation; a null value is `none`.
pub record JsonPatchOperation : Type 0 where
  pub operation : String
  pub path : String
  pub value : Option Value

-- The libraries that patches are made with; `Doc` is a Kubernetes object, `meta_error` the result
-- of NewPatchMetaFromStruct, and patches are texts.
pub record PatchLib (Doc : Type 0) : Type 0 where
  pub marshal : Doc → Result String
  pub as_versioned : Doc → Versioned
  pub create_patch : String → String → Result (List JsonPatchOperation)
  pub marshal_ops : List JsonPatchOperation → Result String
  pub patch_meta : Doc → Result String
  pub three_way_merge_patch : String → String → String → String → Result String

unfoldable pub is_kept : JsonPatchOperation → Bool
is_kept op = not (op.operation == "remove") && not (op.operation == "add" && not (is_some op.value))

unfoldable pub create_json_merge_patch :
    {Doc : Type 0} → PatchLib Doc → String → String → Result (Option String)
unfolding is_kept
create_json_merge_patch lib existing expected = elim (lib.create_patch existing expected) [
  | err e ↦ err e
  | ok ops ↦ elim (keep is_kept ops) [
    | [] ↦ ok none
    | op ∷ more ↦ (elim (lib.marshal_ops (keep is_kept ops)) [ err e ↦ err e | ok p ↦ ok (some p) ])
  ]
]

abbrev uses_json_patch : Versioned → Bool
uses_json_patch other_type = false
uses_json_patch _ = true

-- The strategic merge patch of the last lines of `createPatch`.
unfoldable pub create_strategic_patch :
    {Doc : Type 0} → PatchLib Doc → Doc → String → String → Result (Option String × PatchType)
create_strategic_patch lib expected existing_json expected_json = elim (lib.patch_meta expected) [
  | err e ↦ err e
  | ok patch_meta ↦
      elim (lib.three_way_merge_patch expected_json expected_json existing_json patch_meta) [
        | err e ↦ err e
        | ok patch ↦
            if patch == "" || patch == "{}"
            then ok (none, strategic_merge_patch)
            else ok (some patch, strategic_merge_patch)
      ]
]

-- A missing patch means that there is nothing to do. The patch type beside an error is not read.
unfoldable pub create_patch :
    {Doc : Type 0} → PatchLib Doc → Doc → Doc → Result (Option String × PatchType)
unfolding create_json_merge_patch create_strategic_patch
create_patch lib existing expected = elim (lib.marshal existing) [
  | err e ↦ err e
  | ok existing_json ↦ elim (lib.marshal expected) [
    | err e ↦ err e
    | ok expected_json ↦
        if uses_json_patch (lib.as_versioned expected)
        then (elim (create_json_merge_patch lib existing_json expected_json) [
          | err e ↦ err e
          | ok patch ↦ ok (patch, json_patch)
        ])
        else create_strategic_patch lib expected existing_json expected_json
  ]
]
