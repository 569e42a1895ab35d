-- ===== src/Manifestutil.antt =====
-- pkg/manifestutil/resourcepolicykeep.go. `normalize` is strings.ToLower after strings.TrimSpace; a
-- nil map has no entries.
use helm_operator_plugins.Prelude.{Dict, lookup, String, Bool, false, none, some, ◌==◌}

unfoldable pub has_resource_policy_keep : (String → String) → Dict String → Bool
has_resource_policy_keep normalize annotations =
    elim (lookup "helm.sh/resource-policy" annotations) [
      | none ↦ false
      | some policy ↦ normalize policy == "keep"
    ]
