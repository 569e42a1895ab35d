-- ===== src/Client/Getter/Renderers.antt =====
-- The post-renderer of the clients that ActionClientFor makes.
use helm_operator_plugins.Object.{Unstructured}
use helm_operator_plugins.Controllerutil.{RestMapper}
use helm_operator_plugins.Client.{apply_options}
use helm_operator_plugins.Client.Options.{
  InstallAction, UpgradeAction, with_install_post_renderer, with_upgrade_post_renderer,
}
use helm_operator_plugins.Client.PostRenderer.{chained, PostRenderers, append, run, run_chain}
use helm_operator_plugins.Client.PostRenderer.Chain.{and_then, opaque, run_chain-append}
use helm_operator_plugins.Client.PostRenderer.Owner.{RenderLib, render_owned, owner_post_renderer}
use helm_operator_plugins.Client.Config.{ConfigLib, Configuration}
use helm_operator_plugins.Client.Actions.{ActionClient}
use helm_operator_plugins.Client.Getter.{
  Provider, ActionClientGetter, all_renderers, action_client_for,
}
use helm_operator_plugins.Prelude.{
  ok, Result-cases, String, ◌≡◌, refl, ap, fun_ext, ◌∙◌, inl, inr, some, List, [], ◌∷◌, arith,
}

module _ (lib : ConfigLib) (render : lib.KubeClient → RenderLib) where
  -- The renderers of the providers, as a chain of their own.
  abbrev pub provided :
      List (Provider lib) → RestMapper → lib.KubeClient → Unstructured → PostRenderers
  provided [] rm kube obj = PostRenderers.nil
  provided (p ∷ ps) rm kube obj = PostRenderers.cons (p rm kube obj) (provided ps rm kube obj)

  all_renderers-eq-append :
      (ps : List (Provider lib)) (rm : RestMapper) (kube : lib.KubeClient) (obj : Unstructured)
      → all_renderers lib render ps rm kube obj
        ≡ append (provided ps rm kube obj) (owner_post_renderer (render kube) rm obj)
  unfolding all_renderers
  all_renderers-eq-append [] rm kube obj = refl
  all_renderers-eq-append (p ∷ ps) rm kube obj =
      ap (PostRenderers.cons (p rm kube obj)) (all_renderers-eq-append ps rm kube obj)

  run-owner_post_renderer :
      (kube : lib.KubeClient) (rm : RestMapper) (obj : Unstructured) (manifest : String)
      → run (owner_post_renderer (render kube) rm obj) manifest
        ≡ render_owned (render kube) rm obj manifest
  unfolding owner_post_renderer run
  run-owner_post_renderer kube rm obj manifest = refl

  -- The whole chain is the chain of the providers and, on its output, the default renderer.
  run-all_renderers :
      (ps : List (Provider lib)) (rm : RestMapper) (kube : lib.KubeClient) (obj : Unstructured)
      (manifest : String)
      → run_chain (all_renderers lib render ps rm kube obj) manifest
        ≡ and_then
            (run_chain (provided ps rm kube obj) manifest)
            (λ out. opaque (render_owned (render kube) rm obj out))
  run-all_renderers ps rm kube obj manifest = rw (all_renderers-eq-append ps rm kube obj) (
      run_chain-append (provided ps rm kube obj) (owner_post_renderer (render kube) rm obj) manifest
      ∙ ap (λ f. and_then (run_chain (provided ps rm kube obj) manifest) (λ out. opaque (f out)))
          (fun_ext (run-owner_post_renderer kube rm obj)))

  abbrev pub chain_for : ActionClientGetter lib → Configuration lib → Unstructured → PostRenderers
  chain_for hcg config obj =
      all_renderers lib render hcg.post_renderer_providers config.rest_client_getter.rest_mapper
        config.kube_client obj

  -- A client that ActionClientFor makes sets, for an install and for an upgrade, the post-renderer
  -- before the options of the getter run, so that these can replace it; it renders with the
  -- renderers of the providers, in order, and then marks the output for the object.
  pub action_client_for_renders :
      (hcg : ActionClientGetter lib) (obj : Unstructured) (config : Configuration lib)
      (c : ActionClient) (a : InstallAction) (b : UpgradeAction) (manifest : String)
      → action_client_for lib render hcg obj ≡ ok (config, c)
      → (apply_options c.default_install_opts a
          ≡ apply_options hcg.default_install_opts
              (record a { post_renderer = some (chained (chain_for hcg config obj)) }))
        × (apply_options c.default_upgrade_opts b
            ≡ apply_options hcg.default_upgrade_opts
                (record b { post_renderer = some (chained (chain_for hcg config obj)) }))
        × (run (chained (chain_for hcg config obj)) manifest
            ≡ and_then
                (run_chain
                  (provided hcg.post_renderer_providers config.rest_client_getter.rest_mapper
                    config.kube_client obj)
                  manifest)
                (λ out. opaque (
                  render_owned
                    (render config.kube_client)
                    config.rest_client_getter.rest_mapper
                    obj
                    out)))
  unfolding action_client_for apply_options run
  action_client_for_renders hcg obj config c a b manifest h = elim (Result-cases (hcg.acg obj)) [
    | inr (x, e) ↦ ground (arith, e, h)
    | inl (conf, e) ↦
        let cpr = chained (chain_for hcg config obj) in
        let install_opts : c.default_install_opts
            ≡ with_install_post_renderer cpr ∷ hcg.default_install_opts =
          ground (arith, e, h) in
        let upgrade_opts : c.default_upgrade_opts
            ≡ with_upgrade_post_renderer cpr ∷ hcg.default_upgrade_opts =
          ground (arith, e, h) in
        (
          ap (λ os. apply_options os a) install_opts,
          ap (λ os. apply_options os b) upgrade_opts,
          run-all_renderers hcg.post_renderer_providers config.rest_client_getter.rest_mapper
              config.kube_client obj manifest,
        )
  ]
