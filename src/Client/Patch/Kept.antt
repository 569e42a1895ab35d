-- ===== src/Client/Patch/Kept.antt =====
-- Which operations of a JSON patch are sent.
use helm_operator_plugins.Client.Patch.{
  JsonPatchOperation, PatchLib, is_kept, create_json_merge_patch,
}
use helm_operator_plugins.Prelude.{
  All, keep, ok, String, ◌≡◌, refl, ◌↔◌, ◌⊎◌, inl, inr, none, List, [], ◌∷◌, arith, eq_iff,
}

-- An operation takes something away, or adds a null.
abbrev pub IsIgnored : JsonPatchOperation → Type 0
IsIgnored op = (op.operation ≡ "remove") ⊎ ((op.operation ≡ "add") × (op.value ≡ none))

keep-nil : (ops : List JsonPatchOperation) → All IsIgnored ops → keep is_kept ops ≡ []
unfolding is_kept
keep-nil [] h = refl
keep-nil (op ∷ ops) (inl e, h) = ground (arith, keep-nil ops h, e, eq_iff op.operation "remove")
keep-nil (op ∷ ops) (inr (e, v), h) =
    ground (arith, keep-nil ops h, e, v, eq_iff op.operation "add")

nil-keep : (ops : List JsonPatchOperation) → keep is_kept ops ≡ [] → All IsIgnored ops
unfolding is_kept
nil-keep [] h = tt
nil-keep (op ∷ ops) h =
    ground (arith, nil-keep ops, eq_iff op.operation "remove", eq_iff op.operation "add")

-- createJSONMergePatch asks for no patch exactly if the two documents can be compared and each
-- operation that would turn the one into the other is a "remove" or an "add" of null.
pub create_json_merge_patch_nil :
    {Doc : Type 0} (lib : PatchLib Doc) (existing expected : String) (ops : List JsonPatchOperation)
    → lib.create_patch existing expected ≡ ok ops
    → (create_json_merge_patch lib existing expected ≡ ok none) ↔ All IsIgnored ops
unfolding create_json_merge_patch
create_json_merge_patch_nil lib existing expected ops compared =
    (λ h. nil-keep ops (ground (arith, compared, h)), λ h. ground (arith, compared, keep-nil ops h))
