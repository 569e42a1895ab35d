-- ===== src/Reconciler/Loop/Deletion.antt =====
-- The finalizer: it is there before anything else is done, and goes only after the uninstall.
use helm_operator_plugins.Object.{Unstructured}
use helm_operator_plugins.Cluster.{Cluster}
use helm_operator_plugins.Controllerutil.{contains_finalizer}
use helm_operator_plugins.Updater.{Updater}
use helm_operator_plugins.Reconciler.{Reconciler, uninstall_finalizer}
use helm_operator_plugins.Reconciler.Loop.{
  handle_deletion, delete_release, finish, needs_finalizer, reconcile,
}
use helm_operator_plugins.Prelude.{
  if◌then◌else◌, Error, wrap, ok, err, is_not_found, ℕ, String, ◌≡◌, ◌⊎◌, true, none, some, List,
  [], ◌∷◌, ◌++◌, arith, eq_iff,
}
use helm_operator_plugins.Client.Actions.{ActionInterface}

pub contains_finalizer-append :
    (fs : List String) (f : String) → contains_finalizer (fs ++ (f ∷ [])) f ≡ true
unfolding contains_finalizer
contains_finalizer-append [] f = ground (arith, eq_iff f f)
contains_finalizer-append (g ∷ fs) f = ground (arith, contains_finalizer-append fs f)

-- The server keeps the finalizers that an update sends.
abbrev pub KeepsFinalizers : Cluster → Type 0
KeepsFinalizers k =
    (obj answered : Unstructured) (s t : k.State)
    → k.update obj s ≡ (ok answered, t)
    → answered.finalizers ≡ obj.finalizers

module _ (k : Cluster) (r : Reconciler k.State) (now : ℕ) where
  -- What Reconcile sends to add the finalizer.
  abbrev pub with_finalizer : Unstructured → Unstructured
  with_finalizer obj = record obj { finalizers = obj.finalizers ++ (uninstall_finalizer ∷ []) }

  -- The object that the body of Reconcile works on, and the state that it starts from: `found` as
  -- it is, or the server's answer to the update that added the finalizer.
  abbrev pub IsReadied : Unstructured → k.State → Unstructured → k.State → Type 0
  IsReadied found s obj t =
      ((obj ≡ found) × (t ≡ s))
      ⊎ ((needs_finalizer k r now found ≡ true) × (k.update (with_finalizer found) s ≡ (ok obj, t)))

  -- Reconcile returns at once: with the state that a failed Get left, and no error if the object is
  -- gone, or with the wrapped error and the state of the update that was to add the finalizer.
  abbrev pub EndsAtOnce : String → String → k.State → Type 0
  EndsAtOnce namespace name s =
      (e : Error) × (t : k.State) × (((k.get namespace name s ≡ (err e, t))
          × (reconcile k r now namespace name s
              ≡ ((0, if is_not_found e then none else some e), t)))
        ⊎ ((found : Unstructured) × (m : k.State) × (k.get namespace name s ≡ (ok found, m))
            × (needs_finalizer k r now found ≡ true)
            × (k.update (with_finalizer found) m ≡ (err e, t))
            × (reconcile k r now namespace name s
                ≡ ((0, some (wrap "failed to add uninstall finalizer" e)), t))))

  -- Once handleDeletion has succeeded, the updates that Reconcile collected are dropped: the
  -- deferred Apply calls no API, and Reconcile returns no error and asks for no other run.
  pub finish_deleted :
      (client : ActionInterface k.State) (obj obj' : Unstructured) (u : Updater) (s t : k.State)
      → handle_deletion k r now client obj s ≡ ((none, obj'), t)
      → finish k r now (delete_release k r now client obj u s) ≡ ((0, none), t)
  unfolding delete_release finish
  finish_deleted client obj obj' u s t deleted = ground (arith, deleted)
