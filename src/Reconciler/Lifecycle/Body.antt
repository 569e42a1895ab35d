-- ===== src/Reconciler/Lifecycle/Body.antt =====
-- The body of Reconcile and its deferred function keep a state guarded.
use helm_operator_plugins.Reconciler.Lifecycle.{
  View, IsNamed, IsHeld, IsGuarded, Quiet, ClientTracks, ServerTracks, Tracks,
}
use helm_operator_plugins.Reconciler.Lifecycle.Quiet.{reconcile_release-IsQuietWork}
use helm_operator_plugins.Reconciler.Lifecycle.Deleting.{
  Quiet-IsGuarded, apply-IsGuarded, delete_release-IsGuarded,
}
use helm_operator_plugins.Reconciler.Loop.{
  paused_updates, no_client_updates, Work, failing, reconcile_release, delete_release,
  lookup_updates, with_client, run_active, run_body, finish,
}
use helm_operator_plugins.Reconciler.Actions.{ensure_deployed}
use helm_operator_plugins.Reconciler.{Reconciler}
use helm_operator_plugins.Client.Actions.{ActionInterface}
use helm_operator_plugins.Updater.{Updater, new, update_status, ensure_condition, apply}
use helm_operator_plugins.Cluster.{Cluster}
use helm_operator_plugins.Object.{GroupVersionKind, Unstructured}
use helm_operator_plugins.Conditions.{initialized, paused}
use helm_operator_plugins.Status.{condition_true, condition_false}
use helm_operator_plugins.Release.{Release}
use helm_operator_plugins.Prelude.{
  Bool-cases, Option-cases, is_some, Result, ok, err, Result-cases, ℕ, String, ◌≡◌, refl, sym,
  subst, ◌∙◌, ◌⊎◌, inl, inr, true, none, [], ◌∷◌, arith,
}

module _ {k : Cluster} {v : View k.State} {kind : GroupVersionKind} {namespace name : String}
    (server : ServerTracks k v kind namespace name) {r : Reconciler k.State}
    (tracks : Tracks k v r kind namespace name) where
  module _ (now : ℕ) where
    -- A body that starts from a guarded state, with the object being deleted or held, leaves one, and
    -- no update of the object.
    abbrev pub IsGuardedWork : Work × k.State → Type 0
    IsGuardedWork (w, t) = (w.updater.update_funcs ≡ []) × IsGuarded v t

    abbrev pub IsReady : Unstructured → k.State → Type 0
    IsReady o s =
        IsGuarded v s
        × IsNamed kind namespace name o
        × ((is_some o.deletion_timestamp ≡ true) ⊎ IsHeld v s)

    Quiet-IsReady : {s t : k.State} (o : Unstructured) → Quiet v s t → IsReady o s → IsReady o t
    Quiet-IsReady o quiet (guarded, named, inl dying) =
        (Quiet-IsGuarded server quiet guarded, named, inl dying)
    Quiet-IsReady o quiet (guarded, named, inr (fs, e, held)) =
        (Quiet-IsGuarded server quiet guarded, named, inr (fs, quiet.0 ∙ e, held))

    lookup_updates-idle :
        (u : Updater) (got : Result Release)
        → (lookup_updates k r now u got).update_funcs ≡ u.update_funcs
    unfolding lookup_updates ensure_deployed
    lookup_updates-idle u (ok rel) = refl
    lookup_updates-idle u (err e) = ground arith

    with_client-IsGuardedWork :
        {c : ActionInterface k.State} (client : ClientTracks v name c) (o : Unstructured)
        (u : Updater) (s : k.State)
        → u.update_funcs ≡ []
        → IsReady o s
        → IsGuardedWork (with_client k r now c o u s)
    unfolding with_client
    with_client-IsGuardedWork {c} client o u s idle ready =
        let (got, t) = c.get o.name [] s in
        let u' =
          update_status (lookup_updates k r now u got)
            (ensure_condition (initialized condition_true "" "") ∷ []) in
        let idle' : u'.update_funcs ≡ [] = lookup_updates-idle u got ∙ idle in
        let whole = with_client k r now c o u s in
        let (guarded, (_, _, named), cause) = Quiet-IsReady o (client.gets o.name s) ready in
        elim (Bool-cases (is_some o.deletion_timestamp)) [
          | inl dying ↦
              let q : whole ≡ delete_release k r now c o u' t = ground (arith, dying) in
              subst IsGuardedWork (sym q)
                (delete_release-IsGuarded server r now tracks client o u' t idle' named guarded)
          | inr living ↦
              let q : whole ≡ reconcile_release k r now c o u' t = ground (arith, living) in
              let (idle_after, same) =
                reconcile_release-IsQuietWork tracks now client o u' t idle' in
              elim cause [
                | inl dying ↦ absurd (ground (arith, living, dying))
                | inr (fs, e, held) ↦
                    subst IsGuardedWork (sym q) (idle_after, inr (fs, same ∙ e, held))
              ]
        ]

    run_active-IsGuardedWork :
        (o : Unstructured) (s : k.State) → IsReady o s → IsGuardedWork (run_active k r now o s)
    unfolding run_active
    run_active-IsGuardedWork o s ready =
        let u = update_status new (ensure_condition (paused condition_false "" "") ∷ []) in
        let (got, t) = r.action_client_for o s in
        let whole = run_active k r now o s in
        let ready' = Quiet-IsReady o (tracks.clients o s) ready in
        elim (Result-cases got) [
          | inr (x, e) ↦
              let u' = update_status u (no_client_updates (r.error_text x)) in
              let q : whole ≡ (failing k r now o u' x, t) = ground (arith, e) in
              subst IsGuardedWork (sym q) (refl, ready'.0)
          | inl (c, e) ↦
              let q : whole ≡ with_client k r now c o u t = ground (arith, e) in
              let client = tracks.client_tracks o s t c ready.1 (ground (arith, e)) in
              subst IsGuardedWork (sym q) (with_client-IsGuardedWork client o u t refl ready')
        ]

    pub run_body-IsGuardedWork :
        (o : Unstructured) (s : k.State) → IsReady o s → IsGuardedWork (run_body k r now o s)
    unfolding run_body
    run_body-IsGuardedWork o s ready =
        let whole = run_body k r now o s in
        elim (Option-cases r.pause_handler) [
          | inl e ↦
              let q : whole ≡ run_active k r now o s = ground (arith, e) in
              subst IsGuardedWork (sym q) (run_active-IsGuardedWork o s ready)
          | inr (handler, e) ↦
              let ((is_paused, _), t) = handler o s in
              let ready' = Quiet-IsReady o (tracks.handler handler o s e) ready in
              elim (Bool-cases is_paused) [
                | inl pause ↦
                    let stopped : Work = record {
                      obj = o;
                      updater = update_status new paused_updates;
                      requeue_after = 0;
                      error = none;
                    } in
                    let q : whole ≡ (stopped, t) = ground (arith, e, pause) in
                    subst IsGuardedWork (sym q) (refl, ready'.0)
                | inr go ↦
                    let q : whole ≡ run_active k r now o t = ground (arith, e, go) in
                    subst IsGuardedWork (sym q) (run_active-IsGuardedWork o t ready')
              ]
        ]

    pub finish-IsGuarded :
        (done : Work × k.State) → IsGuardedWork done → IsGuarded v (finish k r now done).1
    unfolding finish
    finish-IsGuarded (w, s) (idle, guarded) =
        let after = apply-IsGuarded server now w.updater w.obj s idle guarded in
        let same : (finish k r now (w, s)).1 ≡ (apply k now w.updater w.obj s).1 = ground arith in
        subst (IsGuarded v) (sym same) after
