-- ===== src/Reconciler/Loop/Completing.antt =====
-- A deletion goes through where nothing stands in its way.
use helm_operator_plugins.Object.{Fields, HelmAppStatus, fields, Unstructured}
use helm_operator_plugins.Cluster.{Cluster}
use helm_operator_plugins.Controllerutil.{contains_finalizer}
use helm_operator_plugins.Updater.{
  Updater, new, is_retryable_update_error, remove_finalizer, status_in, write_through,
  run_status_funcs, apply_updates, apply,
}
use helm_operator_plugins.Reconciler.{Reconciler, uninstall_finalizer, annotation_options}
use helm_operator_plugins.Reconciler.Actions.{released, report_uninstalled, do_uninstall}
use helm_operator_plugins.Reconciler.Loop.{uninstall_and_apply, wait, handle_deletion}
use helm_operator_plugins.Client.Actions.{ActionInterface}
use helm_operator_plugins.Exec.{Exec}
use helm_operator_plugins.Release.{Release}
use helm_operator_plugins.Prelude.{
  Bool-cases, Error, Result, ok, err, is_release_not_found, ℕ, String, ◌≡◌, refl, sym, ap, subst,
  ◌∙◌, ◌⊎◌, inl, inr, Bool, true, false, Option, none, List, [], ◌∷◌, arith,
}

-- A server that accepts every update and keeps the finalizers that it is sent. `retry` answers at
-- once where the call succeeds.
pub record Accepts (k : Cluster) : Type 0 where
  pub retried :
      (test : Error → Bool) (f : Exec k.State Unstructured) (s t : k.State) (a : Unstructured)
      → f s ≡ (ok a, t)
      → k.retry test f s ≡ (ok a, t)
  pub converted : (st : HelmAppStatus) → (m : Fields) × (k.to_unstructured st ≡ ok m)
  pub status_accepted :
      (obj : Unstructured) (s : k.State)
      → (a : Unstructured) × (t : k.State) × (k.update_status obj s ≡ (ok a, t))
        × (a.finalizers ≡ obj.finalizers)
  pub update_accepted :
      (obj : Unstructured) (s : k.State)
      → (a : Unstructured) × (t : k.State) × (k.update obj s ≡ (ok a, t))
        × (a.finalizers ≡ obj.finalizers)

module _ (k : Cluster) (r : Reconciler k.State) (now : ℕ) (accepts : Accepts k) where
  -- What is sent, and answered, when the finalizer of an object with these finalizers goes.
  abbrev pub Released : List String → (Option Error × Unstructured) × k.State → Type 0
  Released finalizers q =
      (sent : Unstructured) × (v : k.State) × (a : Unstructured) × (w : k.State) × (sent.finalizers
        ≡ k.remove_finalizer finalizers uninstall_finalizer)
      × (k.update sent v ≡ (ok a, w))
      × (a.finalizers ≡ sent.finalizers)
      × (q ≡ ((none, a), w))

  apply_updates-Released :
      (u : Updater) (obj : Unstructured) (s : k.State)
      → u.update_funcs ≡ remove_finalizer k uninstall_finalizer ∷ []
      → contains_finalizer obj.finalizers uninstall_finalizer ≡ true
      → Released obj.finalizers (apply_updates k u obj s)
  unfolding apply_updates remove_finalizer
  apply_updates-Released u obj s funcs has =
      let sent = record obj {
        finalizers = k.remove_finalizer obj.finalizers uninstall_finalizer;
      } in
      let (a, w, updated, kept) = accepts.update_accepted sent s in
      let again = accepts.retried is_retryable_update_error (k.update sent) s w a updated in
      (sent, s, a, w, refl, updated, kept, ground (arith, funcs, has, again))

  apply-Released :
      (u : Updater) (obj : Unstructured) (s : k.State)
      → u.is_canceled ≡ false
      → u.update_funcs ≡ remove_finalizer k uninstall_finalizer ∷ []
      → contains_finalizer obj.finalizers uninstall_finalizer ≡ true
      → Released obj.finalizers (apply k now u obj s)
  unfolding apply
  apply-Released u obj s live funcs has =
      let run = run_status_funcs k u.update_status_funcs now false (status_in k obj.status) in
      let touched = record obj { status = write_through k obj.status run.1 } in
      elim (Bool-cases run.0) [
        | inr idle ↦
            let e : apply k now u obj s ≡ apply_updates k u touched s =
              ground (arith, live, idle) in
            subst (Released obj.finalizers) (sym e) (apply_updates-Released u touched s funcs has)
        | inl needs ↦
            let (m, conv) = accepts.converted run.1 in
            let written = record touched { status = fields m } in
            let (a, t, updated, kept) = accepts.status_accepted written s in
            let again =
              accepts.retried is_retryable_update_error (k.update_status written) s t a updated in
            let e : apply k now u obj s ≡ apply_updates k u a t =
              ground (arith, live, needs, conv, again) in
            subst (Released obj.finalizers) (sym e) (
              subst (λ fs. Released fs (apply_updates k u a t)) kept
                (apply_updates-Released u a t funcs
                  (ap (λ fs. contains_finalizer fs uninstall_finalizer) kept ∙ has)))
      ]

  do_uninstall_gone :
      (client : ActionInterface k.State) (obj : Unstructured) (s t : k.State)
      (gone : Result Release)
      → client.uninstall obj.name (annotation_options r.uninstall_annotations obj.annotations) s
        ≡ (gone, t)
      → ((rel : Release) × (gone ≡ ok rel))
        ⊎ ((e : Error) × (gone ≡ err e) × (is_release_not_found e ≡ true))
      → do_uninstall k r client new obj s ≡ ((none, report_uninstalled k r new), t)
  unfolding do_uninstall
  do_uninstall_gone client obj s t gone asked (inl (rel, e)) = ground (arith, asked, e)
  do_uninstall_gone client obj s t gone asked (inr (x, e, m)) = ground (arith, asked, e, m)

  uninstalled :
      (client : ActionInterface k.State) (obj a : Unstructured) (u : Updater) (s t w : k.State)
      → do_uninstall k r client new obj s ≡ ((none, u), t)
      → apply k now u obj t ≡ ((none, a), w)
      → uninstall_and_apply k r now client obj s ≡ ((none, a), w)
  unfolding uninstall_and_apply
  uninstalled client obj a u s t w done applied = ground (arith, done, applied)

  -- If helm has uninstalled the release of an object with the uninstall finalizer, or knows of
  -- none, and the server accepts updates, then handleDeletion sends an update in which the
  -- finalizer is removed, and goes on to wait for the deletion of the object that was answered: no
  -- error comes between.
  pub deletion_completes :
      (client : ActionInterface k.State) (obj : Unstructured) (s t : k.State)
      (gone : Result Release)
      → contains_finalizer obj.finalizers uninstall_finalizer ≡ true
      → client.uninstall obj.name (annotation_options r.uninstall_annotations obj.annotations) s
        ≡ (gone, t)
      → ((rel : Release) × (gone ≡ ok rel))
        ⊎ ((e : Error) × (gone ≡ err e) × (is_release_not_found e ≡ true))
      → (sent : Unstructured) × (v : k.State) × (a : Unstructured) × (w : k.State)
        × (sent.finalizers ≡ k.remove_finalizer obj.finalizers uninstall_finalizer)
        × (k.update sent v ≡ (ok a, w))
        × (a.finalizers ≡ sent.finalizers)
        × (handle_deletion k r now client obj s ≡ wait k r now a w)
  unfolding handle_deletion report_uninstalled
  deletion_completes client obj s t gone has asked reason =
      let u = report_uninstalled k r new in
      let done = do_uninstall_gone client obj s t gone asked reason in
      let (sent, v, a, w, released, updated, kept, e) = apply-Released u obj t refl refl has in
      let both : uninstall_and_apply k r now client obj s ≡ ((none, a), w) =
        uninstalled client obj a u s t w done e in
      (sent, v, a, w, released, updated, kept, ground (arith, has, both))
