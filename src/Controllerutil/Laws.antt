-- ===== src/Controllerutil/Laws.antt =====
-- When an owner reference can be set.
use helm_operator_plugins.Object.{Unstructured}
use helm_operator_plugins.Controllerutil.{
  Scope, namespace_scope, root_scope, RestMapper, supports_owner_reference,
}
use helm_operator_plugins.Prelude.{ok, String, ◌≡◌, Bool, true, false, arith, ◌==◌}

-- The rule of Kubernetes: a cluster-scoped owner may own anything, and a namespaced owner only what
-- is in its namespace.
abbrev pub may_own : Scope → Scope → String → String → Bool
may_own root_scope dep ns ns' = true
may_own namespace_scope root_scope ns ns' = false
may_own namespace_scope namespace_scope ns ns' = ns == ns'

-- SupportsOwnerReference says what the rule says of the two scopes and namespaces, where both
-- kinds are known.
pub supports_owner_reference_lem :
    (rest_mapper : RestMapper) (owner dependent : Unstructured) (a b : Scope)
    → rest_mapper owner.gvk ≡ ok a
    → rest_mapper dependent.gvk ≡ ok b
    → supports_owner_reference rest_mapper owner dependent
      ≡ ok (may_own a b owner.namespace dependent.namespace)
unfolding supports_owner_reference
supports_owner_reference_lem m owner dependent a b p q = ground (arith, p, q)
