-- ===== src/Client/Getter/Examples.antt =====
-- Tests, and the theorems on configurations, clients and the default post-renderer at concrete data:
-- a custom resource that owns one pod.
use helm_operator_plugins.Client.Getter.Data.{
  app, pod, ref_to, visit_all, renders, namespaced, owned_pod, clients, filled_getter, app_config,
  app_getter, app_chain, app_client, fresh_install, fresh_upgrade,
}
use helm_operator_plugins.Object.{GroupVersionKind}
use helm_operator_plugins.Controllerutil.{supports_owner_reference}
use helm_operator_plugins.Manifestutil.{has_resource_policy_keep}
use helm_operator_plugins.Client.{apply_options}
use helm_operator_plugins.Client.Config.{new_action_config_getter, action_config_for}
use helm_operator_plugins.Client.Config.Filled.{action_config_for_runs}
use helm_operator_plugins.Client.PostRenderer.{chained, run, run_chain}
use helm_operator_plugins.Client.PostRenderer.Chain.{and_then, opaque}
use helm_operator_plugins.Client.PostRenderer.Owner.{mark_owner, render_owned}
use helm_operator_plugins.Client.PostRenderer.Owner.Marked.{
  VisitsInOrder, Rendered, render_owned-Rendered, KeepsPolicy, handler_for-mark_owner,
}
use helm_operator_plugins.Client.Getter.{action_client_for}
use helm_operator_plugins.Client.Getter.Renderers.{provided, action_client_for_renders}
use helm_operator_plugins.Hook.{for_owner, for_annotation, handler_for}
use helm_operator_plugins.Prelude.{
  panic, ok, err, String, ◌≡◌, refl, sym, ap, ◌≢◌, ◌⊎◌, Bool, some, List, [], ◌∷◌,
}

visits_in_order : VisitsInOrder renders
unfolding visit_all
visits_in_order = record { visit_nil = λ f out. refl; visit_cons = λ f r rs out. refl }

rendered : render_owned renders namespaced app "pod" ≡ ok "---\nweb-0"
unfolding render_owned supports_owner_reference visit_all
rendered = refl

render_owned-Rendered_example :
    (rs : List String) × (renders.build "pod" ≡ ok rs)
    × Rendered renders namespaced app rs "" "---\nweb-0"
render_owned-Rendered_example =
    render_owned-Rendered renders namespaced app "pod" "---\nweb-0" visits_in_order rendered

pod_marked : mark_owner renders namespaced app pod ≡ ok owned_pod
unfolding mark_owner supports_owner_reference
pod_marked = refl

annotations_keep : KeepsPolicy renders namespaced app
unfolding has_resource_policy_keep
annotations_keep v u h = (
  ap (λ r. elim r as (λ _. GroupVersionKind) [ ok o ↦ o.gvk | err _ ↦ v.gvk ]) (sym h),
  ap (λ r. elim r as (λ _. String) [ ok o ↦ o.namespace | err _ ↦ v.namespace ]) (sym h),
  ap
      (λ r. elim r as (λ _. Bool) [
        | ok o ↦ has_resource_policy_keep (λ s. s) o.annotations
        | err _ ↦ has_resource_policy_keep (λ s. s) v.annotations
      ])
      (sym h),
)

handler_for-mark_owner_example :
    (use_owner_ref : Bool) × (supports_owner_reference namespaced app owned_pod ≡ ok use_owner_ref)
    × (((handler_for (λ s. s) use_owner_ref [] ≡ for_owner)
          × (owned_pod.owner_references ≡ ref_to app ∷ []))
        ⊎ ((handler_for (λ s. s) use_owner_ref [] ≡ for_annotation)
            × (renders.set_owner_annotations app pod ≡ ok owned_pod)))
handler_for-mark_owner_example =
    handler_for-mark_owner renders namespaced app pod owned_pod annotations_keep pod_marked

getter_made : new_action_config_getter clients "cfg" namespaced [] ≡ ok filled_getter
unfolding new_action_config_getter
getter_made = refl

action_config_for_runs_example :
    action_config_for clients filled_getter app ≢ err (panic "nil pointer dereference")
action_config_for_runs_example =
    action_config_for_runs clients "cfg" namespaced [] filled_getter app "nil pointer dereference"
      getter_made

client_made :
    action_client_for clients (λ kube. renders) app_getter app ≡ ok (app_config, app_client)
unfolding action_client_for
client_made = refl

action_client_for_renders_example :
    (apply_options app_client.default_install_opts fresh_install
      ≡ ok (record fresh_install { post_renderer = some (chained app_chain) }))
    × (apply_options app_client.default_upgrade_opts fresh_upgrade
        ≡ ok (record fresh_upgrade { post_renderer = some (chained app_chain) }))
    × (run (chained app_chain) "pod"
        ≡ and_then
            (run_chain
              (provided clients
                (λ kube. renders)
                app_getter.post_renderer_providers
                namespaced
                "default"
                app)
              "pod")
            (λ out. opaque (render_owned renders namespaced app out)))
unfolding apply_options
action_client_for_renders_example =
    action_client_for_renders clients (λ kube. renders) app_getter app app_config app_client
      fresh_install fresh_upgrade "pod" client_made
