-- ===== src/Client/Getter.antt =====
-- The getter of action clients (pkg/client/actionclient.go): its options, and the client that it
-- makes for an object.
pub mod Renderers
mod Data
mod Examples
use helm_operator_plugins.Object.{Unstructured}
use helm_operator_plugins.Controllerutil.{RestMapper}
use helm_operator_plugins.Client.{
  GetAction, HistoryAction, UninstallAction, RollbackAction, OptionFor, apply_options,
}
use helm_operator_plugins.Client.Options.{
  InstallAction, UpgradeAction, with_install_post_renderer, with_upgrade_post_renderer,
}
use helm_operator_plugins.Client.PostRenderer.{PostRenderer, chained, PostRenderers}
use helm_operator_plugins.Client.PostRenderer.Owner.{RenderLib, owner_post_renderer}
use helm_operator_plugins.Client.Config.{ConfigLib, to_rest_mapper, Configuration}
use helm_operator_plugins.Client.Actions.{Helm, ActionClient, ActionInterface, action_interface}
use helm_operator_plugins.Exec.{Exec}
use helm_operator_plugins.Prelude.{Result, ok, err, Bool, true, List, [], ◌∷◌, ◌++◌}

module _ (lib : ConfigLib) where
  -- PostRendererProvider
  abbrev pub Provider : Type 0
  Provider = RestMapper → lib.KubeClient → Unstructured → PostRenderer

  pub record ActionClientGetter : Type 0 where
    pub acg : Unstructured → Result (Configuration lib)
    pub default_get_opts : List (OptionFor GetAction)
    pub default_history_opts : List (OptionFor HistoryAction)
    pub default_install_opts : List (OptionFor InstallAction)
    pub default_upgrade_opts : List (OptionFor UpgradeAction)
    pub default_uninstall_opts : List (OptionFor UninstallAction)
    pub enable_failure_rollbacks : Bool
    pub install_failure_uninstall_opts : List (OptionFor UninstallAction)
    pub upgrade_failure_rollback_opts : List (OptionFor RollbackAction)
    pub post_renderer_providers : List Provider

  unfoldable pub append_get_options : List (OptionFor GetAction) → OptionFor ActionClientGetter
  append_get_options opts getter =
      ok (record getter { default_get_opts = getter.default_get_opts ++ opts })

  unfoldable pub append_history_options :
      List (OptionFor HistoryAction) → OptionFor ActionClientGetter
  append_history_options opts getter =
      ok (record getter { default_history_opts = getter.default_history_opts ++ opts })

  unfoldable pub append_install_options :
      List (OptionFor InstallAction) → OptionFor ActionClientGetter
  append_install_options opts getter =
      ok (record getter { default_install_opts = getter.default_install_opts ++ opts })

  unfoldable pub append_upgrade_options :
      List (OptionFor UpgradeAction) → OptionFor ActionClientGetter
  append_upgrade_options opts getter =
      ok (record getter { default_upgrade_opts = getter.default_upgrade_opts ++ opts })

  unfoldable pub append_uninstall_options :
      List (OptionFor UninstallAction) → OptionFor ActionClientGetter
  append_uninstall_options opts getter =
      ok (record getter { default_uninstall_opts = getter.default_uninstall_opts ++ opts })

  unfoldable pub append_install_failure_uninstall_options :
      List (OptionFor UninstallAction) → OptionFor ActionClientGetter
  append_install_failure_uninstall_options opts getter = ok (record getter {
    install_failure_uninstall_opts = getter.install_failure_uninstall_opts ++ opts;
  })

  unfoldable pub append_upgrade_failure_rollback_options :
      List (OptionFor RollbackAction) → OptionFor ActionClientGetter
  append_upgrade_failure_rollback_options opts getter = ok (record getter {
    upgrade_failure_rollback_opts = getter.upgrade_failure_rollback_opts ++ opts;
  })

  unfoldable pub append_post_renderers : List Provider → OptionFor ActionClientGetter
  append_post_renderers post_renderer_fns getter = ok (record getter {
    post_renderer_providers = getter.post_renderer_providers ++ post_renderer_fns;
  })

  unfoldable pub with_failure_rollbacks : Bool → OptionFor ActionClientGetter
  with_failure_rollbacks enable getter = ok (record getter { enable_failure_rollbacks = enable })

  unfoldable pub new_action_client_getter :
      (Unstructured → Result (Configuration lib))
      → List (OptionFor ActionClientGetter)
      → Result ActionClientGetter
  unfolding apply_options
  new_action_client_getter acg opts = apply_options opts (record {
    acg = acg;
    default_get_opts = [];
    default_history_opts = [];
    default_install_opts = [];
    default_upgrade_opts = [];
    default_uninstall_opts = [];
    enable_failure_rollbacks = true;
    install_failure_uninstall_opts = [];
    upgrade_failure_rollback_opts = [];
    post_renderer_providers = [];
  })

  -- The chain that ActionClientFor builds: the providers' renderers, then the default one.
  unfoldable pub all_renderers :
      (lib.KubeClient → RenderLib)
      → List Provider
      → RestMapper
      → lib.KubeClient
      → Unstructured
      → PostRenderers
  unfolding owner_post_renderer
  all_renderers render [] rm kube obj =
      PostRenderers.cons (owner_post_renderer (render kube) rm obj) PostRenderers.nil
  all_renderers render (provider ∷ providers) rm kube obj =
      PostRenderers.cons (provider rm kube obj) (all_renderers render providers rm kube obj)

  unfoldable pub action_client_for :
      (lib.KubeClient → RenderLib)
      → ActionClientGetter
      → Unstructured
      → Result (Configuration lib × ActionClient)
  unfolding all_renderers with_install_post_renderer with_upgrade_post_renderer to_rest_mapper
  action_client_for render hcg obj = elim (hcg.acg obj) [
    | err e ↦ err e
    | ok action_config ↦ elim (to_rest_mapper lib action_config.rest_client_getter) [
      | err e ↦ err e
      | ok rm ↦
          let cpr =
            chained
              (all_renderers render hcg.post_renderer_providers rm action_config.kube_client obj) in
          ok (
            action_config,
            record {
              default_get_opts = hcg.default_get_opts;
              default_history_opts = hcg.default_history_opts;
              default_install_opts = with_install_post_renderer cpr ∷ hcg.default_install_opts;
              default_upgrade_opts = with_upgrade_post_renderer cpr ∷ hcg.default_upgrade_opts;
              default_uninstall_opts = hcg.default_uninstall_opts;
              enable_failure_rollbacks = hcg.enable_failure_rollbacks;
              install_failure_uninstall_opts = hcg.install_failure_uninstall_opts;
              upgrade_failure_rollback_opts = hcg.upgrade_failure_rollback_opts;
            },
          )
    ]
  ]

  -- ActionClientFor as the reconciler calls it, for helm over a configuration.
  unfoldable pub client_for :
      {S : Type 0}
      → (Configuration lib → Helm S)
      → (lib.KubeClient → RenderLib)
      → ActionClientGetter
      → Unstructured
      → Exec S (ActionInterface S)
  unfolding action_client_for action_interface
  client_for helm_over render hcg obj s = elim (action_client_for render hcg obj) [
    | err e ↦ (err e, s)
    | ok (config, client) ↦ (ok (action_interface (helm_over config) client), s)
  ]
