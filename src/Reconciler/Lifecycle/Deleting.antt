-- ===== src/Reconciler/Lifecycle/Deleting.antt =====
-- The way of a deletion: a release is left without the finalizer only when it is gone.
use helm_operator_plugins.Reconciler.Lifecycle.{
  View, IsGuarded, NoNewRelease, Quiet, ClientTracks, ServerTracks, Tracks,
}
use helm_operator_plugins.Reconciler.Loop.{
  uninstall_and_apply, wait, handle_deletion, delete_release,
}
use helm_operator_plugins.Reconciler.Actions.{report_failure, report_uninstalled, do_uninstall}
use helm_operator_plugins.Reconciler.{Reconciler, uninstall_finalizer, annotation_options}
use helm_operator_plugins.Client.Actions.{ActionInterface}
use helm_operator_plugins.Updater.{Updater, new, apply}
use helm_operator_plugins.Updater.Keeping.{apply-keeps}
use helm_operator_plugins.Controllerutil.{contains_finalizer, is_deleted, wait_for_deletion}
use helm_operator_plugins.Cluster.{Cluster}
use helm_operator_plugins.Object.{GroupVersionKind, Unstructured}
use helm_operator_plugins.Conditions.{reason_uninstall_error}
use helm_operator_plugins.Prelude.{
  Bool-cases, Option-cases, is_release_not_found, Result-cases, ℕ, String, ◌≡◌, refl, sym, ap,
  subst, ◌∙◌, inl, inr, false, [], arith,
}

module _ {k : Cluster} {v : View k.State} {kind : GroupVersionKind} {namespace name : String}
    (server : ServerTracks k v kind namespace name) where
  -- What leaves the finalizers, and makes no release, keeps a state guarded.
  pub Quiet-IsGuarded : {s t : k.State} → Quiet v s t → IsGuarded v s → IsGuarded v t
  Quiet-IsGuarded (same, none_new) (inl gone) = inl (none_new gone)
  Quiet-IsGuarded (same, none_new) (inr (fs, e, held)) = inr (fs, same ∙ e, held)

  pub apply-IsGuarded :
      (now : ℕ) (u : Updater) (o : Unstructured) (s : k.State)
      → u.update_funcs ≡ []
      → IsGuarded v s
      → IsGuarded v (apply k now u o s).1
  apply-IsGuarded now u o s idle =
      apply-keeps k (IsGuarded v) server.retried now u o s
        (λ p t. Quiet-IsGuarded (server.status_sent p t)) (inl idle)

  -- Without a release, no update makes one.
  apply-makes_no_release :
      (now : ℕ) (u : Updater) (o : Unstructured) (s : k.State)
      → NoNewRelease v s (apply k now u o s).1
  apply-makes_no_release now u o s =
      apply-keeps k (λ t. v.released t ≡ false) server.retried now u o s
        (λ p t. (server.status_sent p t).1) (inr server.makes_no_release)

  module _ (r : Reconciler k.State) (now : ℕ) where
    wait-IsGuarded :
        (o : Unstructured) (s : k.State) → IsGuarded v s → IsGuarded v (wait k r now o s).1
    unfolding wait wait_for_deletion
    wait-IsGuarded o s =
        server.polled (IsGuarded v)
          (λ p t. let (got, u) = k.get o.namespace o.name t in (is_deleted p got, u)) o s
          (λ p t. Quiet-IsGuarded (server.reads o.namespace o.name t))

    module _ (tracks : Tracks k v r kind namespace name) {c : ActionInterface k.State}
        (client : ClientTracks v name c) where
      uninstall_and_apply-IsGuarded :
          (o : Unstructured) (s : k.State)
          → o.name ≡ name
          → IsGuarded v s
          → IsGuarded v (uninstall_and_apply k r now c o s).1
      unfolding uninstall_and_apply do_uninstall report_failure report_uninstalled
      uninstall_and_apply-IsGuarded o s named guarded =
          let opts = annotation_options r.uninstall_annotations o.annotations in
          let tried = c.uninstall o.name opts s in
          let t = tried.1 in
          let whole = uninstall_and_apply k r now c o s in
          elim (Result-cases tried.0) [
            | inl (rel, e) ↦
                let same : whole.1 ≡ (apply k now (report_uninstalled k r new) o t).1 =
                  ground (arith, e) in
                let gone =
                  client.uninstalled o.name opts s t rel named (tracks.plain_options o.annotations)
                    (ground (arith, e)) in
                inl (
                  ap v.released same
                  ∙ apply-makes_no_release now (report_uninstalled k r new) o t gone)
            | inr (x, e) ↦ elim (Bool-cases (is_release_not_found x)) [
              | inl missing ↦
                  let same : whole.1 ≡ (apply k now (report_uninstalled k r new) o t).1 =
                    ground (arith, e, missing) in
                  let gone =
                    client.missing o.name opts s t x named (tracks.plain_options o.annotations)
                      (ground (arith, e)) missing in
                  inl (
                    ap v.released same
                    ∙ apply-makes_no_release now (report_uninstalled k r new) o t gone)
              | inr other_error ↦
                  let u = report_failure k r new reason_uninstall_error x in
                  let same : whole.1 ≡ (apply k now u o t).1 = ground (arith, e, other_error) in
                  let kept = Quiet-IsGuarded (client.uninstalls o.name opts s) guarded in
                  subst (IsGuarded v) (sym same) (apply-IsGuarded now u o t refl kept)
            ]
          ]

      handle_deletion-IsGuarded :
          (o : Unstructured) (s : k.State)
          → o.name ≡ name
          → IsGuarded v s
          → IsGuarded v (handle_deletion k r now c o s).1
      unfolding handle_deletion
      handle_deletion-IsGuarded o s named guarded =
          let whole = handle_deletion k r now c o s in
          let closed = uninstall_and_apply k r now c o s in
          let after = uninstall_and_apply-IsGuarded o s named guarded in
          elim (Bool-cases (contains_finalizer o.finalizers uninstall_finalizer)) [
            | inr free ↦
                let same : whole.1 ≡ (wait k r now o s).1 = ground (arith, free) in
                subst (IsGuarded v) (sym same) (wait-IsGuarded o s guarded)
            | inl there ↦ elim (Option-cases closed.0.0) [
              | inl e ↦
                  let same : whole.1 ≡ (wait k r now closed.0.1 closed.1).1 =
                    ground (arith, there, e) in
                  subst (IsGuarded v) (sym same) (wait-IsGuarded closed.0.1 closed.1 after)
              | inr (x, e) ↦
                  let same : whole.1 ≡ closed.1 = ground (arith, there, e) in
                  subst (IsGuarded v) (sym same) after
            ]
          ]

      -- What handleDeletion leaves is guarded, and the object is to be updated by nothing.
      pub delete_release-IsGuarded :
          (o : Unstructured) (u : Updater) (s : k.State)
          → u.update_funcs ≡ []
          → o.name ≡ name
          → IsGuarded v s
          → let (w, t) = delete_release k r now c o u s in
            (w.updater.update_funcs ≡ []) × IsGuarded v t
      unfolding delete_release
      delete_release-IsGuarded o u s idle named guarded =
          let done = handle_deletion k r now c o s in
          let whole = delete_release k r now c o u s in
          let after = handle_deletion-IsGuarded o s named guarded in
          elim (Option-cases done.0.0) [
            | inl e ↦
                let same : whole.1 ≡ done.1 = ground (arith, e) in
                (ground (arith, e, idle), subst (IsGuarded v) (sym same) after)
            | inr (x, e) ↦
                let same : whole.1 ≡ done.1 = ground (arith, e) in
                (ground (arith, e, idle), subst (IsGuarded v) (sym same) after)
          ]
