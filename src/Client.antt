-- ===== src/Client.antt =====
-- pkg/client: helm's actions as the reconciler calls them. This file has the actions' settings, as
-- far as the program touches them, and what is helm's own.
pub mod PostRenderer
pub mod Options
mod Examples
pub mod Patch
pub mod Actions
pub mod OwnerRef
pub mod Config
pub mod Getter
use helm_operator_plugins.Prelude.{Result, ok, err, ℕ, String, Bool, List, [], ◌∷◌}

pub record GetAction : Type 0 where
  pub version : ℕ

pub record HistoryAction : Type 0 where
  pub max : ℕ

pub record UninstallAction : Type 0 where
  pub disable_hooks : Bool
  pub dry_run : Bool
  pub keep_history : Bool
  pub ignore_not_found : Bool
  pub description : String

pub record RollbackAction : Type 0 where
  pub force : Bool
  pub max_history : ℕ

-- An option changes the settings of an action, or fails.
abbrev pub OptionFor : Type 0 → Type 0
OptionFor A = A → Result A

-- The loop that every operation runs over its options.
unfoldable pub apply_options : {A : Type 0} → List (OptionFor A) → A → Result A
apply_options [] a = ok a
apply_options (o ∷ os) a = elim (o a) [ err e ↦ err e | ok b ↦ apply_options os b ]
