-- ===== src/Controllerutil.antt =====
-- internal/sdk/controllerutil/controllerutil.go
pub mod Laws
use helm_operator_plugins.Object.{GroupVersionKind, Unstructured}
use helm_operator_plugins.Cluster.{Cluster}
use helm_operator_plugins.Prelude.{
  if◌then◌else◌, Result, ok, err, is_not_found, String, Bool, true, false, ◌||◌, not, List, [], ◌∷◌,
  ◌==◌,
}

unfoldable pub contains_finalizer : List String → String → Bool
contains_finalizer [] finalizer = false
contains_finalizer (f ∷ fs) finalizer = f == finalizer || contains_finalizer fs finalizer

-- One poll of WaitForDeletion: a missing object ends the wait, and another error fails it. What was
-- read takes the place of the object.
unfoldable pub is_deleted : Unstructured → Result Unstructured → Result Bool × Unstructured
unfolding is_not_found
is_deleted o (ok read) = (ok false, read)
is_deleted o (err e) = if is_not_found e then (ok true, o) else (err e, o)

unfoldable pub wait_for_deletion :
    (k : Cluster) → Unstructured → k.State → (Result (Unit {0}) × Unstructured) × k.State
unfolding is_deleted
wait_for_deletion k obj =
    k.poll (λ o s. let (r, t) = k.get obj.namespace obj.name s in (is_deleted o r, t)) obj

-- meta.RESTScopeName
pub data Scope : Type 0 where
  namespace_scope root_scope : Scope

abbrev is_root : Scope → Bool
is_root namespace_scope = false
is_root root_scope = true

-- meta.RESTMapper.RESTMapping, as far as it is read
abbrev pub RestMapper : Type 0
RestMapper = GroupVersionKind → Result Scope

unfoldable pub supports_owner_reference : RestMapper → Unstructured → Unstructured → Result Bool
supports_owner_reference rest_mapper owner dependent = elim (rest_mapper owner.gvk) [
  | err e ↦ err e
  | ok owner_scope ↦ elim (rest_mapper dependent.gvk) [
    | err e ↦ err e
    | ok dep_scope ↦ ok (
        if is_root owner_scope
        then true
        else if is_root dep_scope
        then false
        else if not (owner.namespace == dependent.namespace)
        then false
        else true)
  ]
]
