-- ===== src/Client/Options.antt =====
-- The settings of install and upgrade, and the options of pkg/client/postrenderer.go on them.
pub mod Laws
use helm_operator_plugins.Client.{OptionFor}
use helm_operator_plugins.Client.PostRenderer.{PostRenderer, append_post_renderer}
use helm_operator_plugins.Prelude.{ok, ℕ, String, Bool, Option, some}

pub record InstallAction : Type 0 where
  pub release_name : String
  pub namespace : String
  pub disable_hooks : Bool
  pub description : String
  pub post_renderer : Option PostRenderer

pub record UpgradeAction : Type 0 where
  pub namespace : String
  pub max_history : ℕ
  pub dry_run : Bool
  pub dry_run_option : String
  pub force : Bool
  pub disable_hooks : Bool
  pub description : String
  pub post_renderer : Option PostRenderer

unfoldable pub with_install_post_renderer : PostRenderer → OptionFor InstallAction
with_install_post_renderer pr i = ok (record i { post_renderer = some pr })

unfoldable pub append_install_post_renderer : PostRenderer → OptionFor InstallAction
append_install_post_renderer pr a =
    ok (record a { post_renderer = some (append_post_renderer a.post_renderer pr) })

unfoldable pub with_upgrade_post_renderer : PostRenderer → OptionFor UpgradeAction
with_upgrade_post_renderer pr a = ok (record a { post_renderer = some pr })

unfoldable pub append_upgrade_post_renderer : PostRenderer → OptionFor UpgradeAction
append_upgrade_post_renderer pr a =
    ok (record a { post_renderer = some (append_post_renderer a.post_renderer pr) })
