-- ===== src/Predicates/Passed.antt =====
-- Which events are passed on, in terms of the parts of an object.
use helm_operator_plugins.Predicates.{ManagedFieldsEntry, ObjectLib, without_status}
use helm_operator_plugins.Prelude.{String, ◌≡◌, ◌↔◌, true, Option, none, List}

pub record Parts (Status Rest : Type 0) : Type 0 where
  pub status : Option Status
  pub resource_version : String
  pub managed_fields : Option (List ManagedFieldsEntry)
  pub rest : Rest

-- An object is its status, its resource version, its managed fields and the rest; each accessor is
-- for one of them, and objects are equal if their parts are.
pub record HasParts {Obj : Type 0} (lib : ObjectLib Obj) : Type 1 where
  pub Status : Type 0
  pub Rest : Type 0
  pub parts : Obj → Parts Status Rest
  pub status_deleted : (o : Obj) → parts (lib.delete_status o) ≡ record (parts o) { status = none }
  pub version_set :
      (v : String) (o : Obj)
      → parts (lib.set_resource_version v o) ≡ record (parts o) { resource_version = v }
  pub fields_got : (o : Obj) → lib.get_managed_fields o ≡ (parts o).managed_fields
  pub fields_set :
      (fs : Option (List ManagedFieldsEntry)) (o : Obj)
      → parts (lib.set_managed_fields fs o) ≡ record (parts o) { managed_fields = fs }
  pub compared : (a b : Obj) → (lib.deep_equal a b ≡ true) ↔ (parts a ≡ parts b)

module _ {Obj : Type 0} (lib : ObjectLib Obj) (has : HasParts lib) where
  open has use {Status, Rest, parts}

  -- The parts that count.
  abbrev pub kept : Parts Status Rest → Parts Status Rest
  kept p = record p {
    status = none;
    resource_version = "";
    managed_fields = without_status p.managed_fields;
  }
