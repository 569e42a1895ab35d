-- ===== src/Predicates.antt =====
-- pkg/internal/predicate/predicates.go: which events of a dependent resource are passed on. The log
-- is left out; a deep copy is the object itself, which nothing here changes in place.
pub mod Passed
mod Examples
use helm_operator_plugins.Prelude.{
  if◌then◌else◌, keep, String, Bool, true, false, not, Option, none, some, List, ◌==◌,
}

-- metav1.ManagedFieldsEntry; `rest` stands for the fields that are only passed on.
pub record ManagedFieldsEntry : Type 0 where
  pub subresource : String
  pub rest : String

-- What is called of an object: its accessors, `delete` of the status, and reflect.DeepEqual. A nil
-- slice of managed fields is `none`.
pub record ObjectLib (Obj : Type 0) : Type 0 where
  pub delete_status : Obj → Obj
  pub set_resource_version : String → Obj → Obj
  pub get_managed_fields : Obj → Option (List ManagedFieldsEntry)
  pub set_managed_fields : Option (List ManagedFieldsEntry) → Obj → Obj
  pub deep_equal : Obj → Obj → Bool

pub data Event (Obj : Type 0) : Type 0 where
  created : Obj → Event Obj
  deleted : Obj → Event Obj
  generic : Obj → Event Obj
  updated : Obj → Obj → Event Obj

unfoldable pub is_status_subresource : ManagedFieldsEntry → Bool
is_status_subresource f = f.subresource == "status"

-- slices.DeleteFunc, which leaves nil as it is
unfoldable pub without_status : Option (List ManagedFieldsEntry) → Option (List ManagedFieldsEntry)
unfolding is_status_subresource
without_status none = none
without_status (some fs) = some (keep (λ f. not (is_status_subresource f)) fs)

module _ {Obj : Type 0} (lib : ObjectLib Obj) where
  unfoldable pub remove_status_managed_field : Obj → Obj
  unfolding without_status
  remove_status_managed_field obj =
      lib.set_managed_fields (without_status (lib.get_managed_fields obj)) obj

  -- What UpdateFunc does to each of the two objects before it compares them.
  unfoldable pub stripped : Obj → Obj
  unfolding remove_status_managed_field
  stripped obj = remove_status_managed_field (lib.set_resource_version "" (lib.delete_status obj))

  unfoldable pub update_func : Obj → Obj → Bool
  unfolding stripped
  update_func old new = if lib.deep_equal (stripped old) (stripped new) then false else true

  unfoldable pub dependent_predicate_funcs : Event Obj → Bool
  unfolding update_func
  dependent_predicate_funcs (created o) = false
  dependent_predicate_funcs (deleted o) = true
  dependent_predicate_funcs (generic o) = false
  dependent_predicate_funcs (updated old new) = update_func old new
