-- ===== src/Reconciler/Lifecycle/Guarded.antt =====
-- A release is never left without the uninstall finalizer on its resource, whatever Reconcile runs
-- into and whenever it runs.
use helm_operator_plugins.Reconciler.Lifecycle.{
  View, IsNamed, IsHeld, IsGuarded, Quiet, ServerTracks, Tracks, Step, reconciled, outside, Reach,
  here, next,
}
use helm_operator_plugins.Reconciler.Lifecycle.Body.{
  IsReady, run_body-IsGuardedWork, finish-IsGuarded,
}
use helm_operator_plugins.Reconciler.Lifecycle.Deleting.{Quiet-IsGuarded}
use helm_operator_plugins.Reconciler.Loop.{run_body, finish, add_finalizer, reconcile}
use helm_operator_plugins.Reconciler.Loop.Deletion.{contains_finalizer-append}
use helm_operator_plugins.Reconciler.{Reconciler, uninstall_finalizer}
use helm_operator_plugins.Controllerutil.{contains_finalizer}
use helm_operator_plugins.Cluster.{Cluster}
use helm_operator_plugins.Object.{GroupVersionKind, Unstructured}
use helm_operator_plugins.Prelude.{
  Bool-cases, is_some, wrap, Result, ok, err, Result-cases, ℕ, String, ◌≡◌, sym, ap, subst, inl,
  inr, false, some, [], ◌∷◌, ◌++◌, arith,
}

module _ {k : Cluster} {v : View k.State} {kind : GroupVersionKind} {namespace name : String}
    (server : ServerTracks k v kind namespace name) {r : Reconciler k.State}
    (tracks : Tracks k v r kind namespace name) where
  module _ (now : ℕ) where
    -- What add_finalizer leaves for the object that was read.
    IsAdded : Result Unstructured × k.State → Type 0
    IsAdded (ok o, t) = IsReady server tracks now o t
    IsAdded (err e, t) = IsGuarded v t

    -- An update that is sent with the finalizer, for an object that is not being deleted.
    sent-IsHeld :
        (o a : Unstructured) (s t : k.State)
        → IsNamed kind namespace name o
        → is_some o.deletion_timestamp ≡ false
        → k.update (record o { finalizers = o.finalizers ++ (uninstall_finalizer ∷ []) }) s
          ≡ (ok a, t)
        → IsHeld v t
    sent-IsHeld o a s t named living updated =
        let held : Unstructured = record o {
          finalizers = o.finalizers ++ (uninstall_finalizer ∷ []);
        } in
        elim (server.sent held a s t named updated) [
          | inl e ↦ (held.finalizers, e, contains_finalizer-append o.finalizers uninstall_finalizer)
          | inr (_, dying) ↦ absurd (ground (arith, living, dying))
        ]

    add_finalizer-IsAdded :
        (o : Unstructured) (s : k.State)
        → IsNamed kind namespace name o
        → v.finalizers s ≡ some o.finalizers
        → IsGuarded v s
        → IsAdded (add_finalizer k r now o s)
    unfolding add_finalizer IsAdded
    add_finalizer-IsAdded o s named found guarded =
        let whole = add_finalizer k r now o s in
        let dying = is_some o.deletion_timestamp in
        let there = contains_finalizer o.finalizers uninstall_finalizer in
        elim (Bool-cases dying) [
          | inl e ↦
              let q : whole ≡ (ok o, s) = ground (arith, e) in
              subst IsAdded (sym q) (guarded, named, inl e)
          | inr living ↦ elim (Bool-cases there) [
            | inl e ↦
                let q : whole ≡ (ok o, s) = ground (arith, e, living) in
                subst IsAdded (sym q) (guarded, named, inr (o.finalizers, found, e))
            | inr e ↦
                let held : Unstructured = record o {
                  finalizers = o.finalizers ++ (uninstall_finalizer ∷ []);
                } in
                let (answer, t) = k.update held s in
                elim (Result-cases answer) [
                  | inl (a, f) ↦
                      let q : whole ≡ (ok a, t) = ground (arith, e, living, f) in
                      let safe = sent-IsHeld o a s t named living (ground (arith, f)) in
                      let named_still = server.answered held a s t named (ground (arith, f)) in
                      subst IsAdded (sym q) (inr safe, named_still, inr safe)
                  | inr (x, f) ↦
                      let q : whole ≡ (err (wrap "failed to add uninstall finalizer" x), t) =
                        ground (arith, e, living, f) in
                      let same = server.refused held s t x (ground (arith, f)) in
                      let quiet : Quiet v s t = (same, server.makes_no_release held s) in
                      subst IsAdded (sym q) (Quiet-IsGuarded server quiet guarded)
                ]
          ]
        ]

    reconcile-IsGuarded :
        (s : k.State) → IsGuarded v s → IsGuarded v (reconcile k r now namespace name s).1
    unfolding reconcile IsAdded
    reconcile-IsGuarded s guarded =
        let whole = reconcile k r now namespace name s in
        let (got, t) = k.get namespace name s in
        let after = Quiet-IsGuarded server (server.reads namespace name s) guarded in
        elim (Result-cases got) [
          | inr (x, e) ↦
              let same : whole.1 ≡ t = ground (arith, e) in subst (IsGuarded v) (sym same) after
          | inl (o, e) ↦
              let (named, found) = server.found o s t (ground (arith, e)) in
              let added = add_finalizer k r now o t in
              let safe = add_finalizer-IsAdded o t named found after in
              elim (Result-cases added.0) [
                | inr (x, f) ↦
                    let same : whole.1 ≡ added.1 = ground (arith, e, f) in
                    let split : added ≡ (err x, added.1) = ground (arith, f) in
                    subst (IsGuarded v) (sym same) (subst IsAdded split safe)
                | inl (o', f) ↦
                    let same : whole ≡ finish k r now (run_body k r now o' added.1) =
                      ground (arith, e, f) in
                    let split : added ≡ (ok o', added.1) = ground (arith, f) in
                    let body =
                      run_body-IsGuardedWork server tracks now o' added.1
                        (subst IsAdded split safe) in
                    subst (IsGuarded v) (sym (ap (λ w. w.1) same))
                      (finish-IsGuarded server tracks now (run_body k r now o' added.1) body)
              ]
        ]

  Step-IsGuarded : {s t : k.State} → Step k v r namespace name s t → IsGuarded v s → IsGuarded v t
  Step-IsGuarded (reconciled now s) guarded = reconcile-IsGuarded now s guarded
  Step-IsGuarded (outside s t none_new kept) (inl gone) = inl (none_new gone)
  Step-IsGuarded (outside s t none_new kept) (inr held) = inr (kept held)

-- Wherever the server does for the resource of this kind, namespace and name as `ServerTracks` says,
-- helm does for the release of its name as `Tracks` says, where annotations let an uninstall remove
-- the release, and others neither make a release nor take the finalizer of the resource away, a state
-- in which helm has no release or the resource has the uninstall finalizer is followed by such states
-- only: no sequence of runs of Reconcile and outside steps, with any errors in them, leaves a release
-- that no deletion of the resource would uninstall.
pub Reach-IsGuarded :
    (k : Cluster) (v : View k.State) (r : Reconciler k.State) (kind : GroupVersionKind)
    (namespace name : String) (s t : k.State)
    → ServerTracks k v kind namespace name
    → Tracks k v r kind namespace name
    → IsGuarded v s
    → Reach k v r namespace name s t
    → IsGuarded v t
Reach-IsGuarded k v r kind namespace name s t server tracks guarded here = guarded
Reach-IsGuarded k v r kind namespace name s t server tracks guarded (next before step) =
    Step-IsGuarded server tracks step
      (Reach-IsGuarded k v r kind namespace name s _ server tracks guarded before)
