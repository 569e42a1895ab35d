-- ===== src/Object.antt =====
-- The custom resource as the program sees it (unstructured.Unstructured), with the status types of
-- pkg/reconciler/internal/updater/updater.go. A nil object, or one with no content, is `none`.
use helm_operator_plugins.Status.{Conditions}
use helm_operator_plugins.Prelude.{Dict, ℕ, String, Bool, Option, List}

-- Decoded JSON, what Go holds in an `interface{}`.
mutual
  pub data Value : Type 0 where
    null : Value
    bool : Bool → Value
    number : ℕ → Value
    text : String → Value
    array : Items → Value
    object : Fields → Value

  pub data Items : Type 0 where
    nil : Items
    cons : Value → Items → Items

  pub data Fields : Type 0 where
    end : Fields
    field : String → Value → Fields → Fields

-- chartutil.Values
abbrev pub Values : Type 0
Values = Fields

-- helm's chart.Chart, which the program only passes on
pub record Chart : Type 0 where
  pub name : String

pub record GroupVersionKind : Type 0 where
  pub group : String
  pub version : String
  pub kind : String

pub record HelmAppRelease : Type 0 where
  pub name : String
  pub manifest : String

pub record HelmAppStatus : Type 0 where
  pub conditions : Conditions
  pub deployed_release : Option HelmAppRelease

-- What stands under "status": nothing, a pointer to a typed status, a typed status, a map, or
-- anything else.
pub data StatusField : Type 0 where
  absent : StatusField
  pointer : HelmAppStatus → StatusField
  typed : HelmAppStatus → StatusField
  fields : Fields → StatusField
  unknown : StatusField

-- metav1.OwnerReference
pub record OwnerReference : Type 0 where
  pub api_version : String
  pub kind : String
  pub name : String
  pub uid : String
  pub controller : Bool
  pub block_owner_deletion : Bool

pub record Unstructured : Type 0 where
  pub gvk : GroupVersionKind
  pub name : String
  pub namespace : String
  pub annotations : Dict String
  pub owner_references : List OwnerReference
  pub finalizers : List String
  pub deletion_timestamp : Option ℕ
  pub spec : Option Value
  pub status : StatusField
