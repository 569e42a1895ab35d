-- ===== src/Reconciler/Lifecycle/Examples.antt =====
-- The life of a resource at concrete data: it is created, installed, deleted and uninstalled.
use helm_operator_plugins.Reconciler.Lifecycle.{
  Removes, IsNamed, IsGuarded, SameFinalizers, NoNewRelease, Quiet, ClientTracks, ServerTracks,
  Tracks, reconciled, outside, Reach, here, next,
}
use helm_operator_plugins.Reconciler.Lifecycle.Data.{
  World, finalizers_of, view, ends, stored, web, is_web, server, world_helm, driven, nothing,
}
use helm_operator_plugins.Reconciler.Lifecycle.Guarded.{Reach-IsGuarded}
use helm_operator_plugins.Reconciler.Lifecycle.Tracking.{HelmTracks, action_interface-ClientTracks}
use helm_operator_plugins.Reconciler.Loop.{reconcile}
use helm_operator_plugins.Reconciler.Loop.Data.{resource, plain_actions}
use helm_operator_plugins.Reconciler.{uninstall_finalizer, annotation_options}
use helm_operator_plugins.Client.{GetAction, UninstallAction, apply_options}
use helm_operator_plugins.Client.Actions.{action_interface}
use helm_operator_plugins.Object.{Unstructured}
use helm_operator_plugins.Updater.{
  ensure_condition, ensure_deployed_release, remove_deployed_release, remove_finalizer,
}
use helm_operator_plugins.Conditions.{initialized, deployed, release_failed, irreconcilable, paused}
use helm_operator_plugins.SpecValues.{default_translator}
use helm_operator_plugins.Release.{Release}
use helm_operator_plugins.Prelude.{
  Bool-cases, is_some, Error, Result, ok, err, Result-cases, String, ◌≡◌, refl, sym, ap, subst, ◌∙◌,
  ◌⊎◌, inl, inr, Bool, true, false, none, some, [], ◌∷◌, arith, eq_iff,
}

update_status-Quiet : (o : Unstructured) (s : World) → Quiet view s (server.update_status o s).1
update_status-Quiet o (none, b) = (refl, λ e. e)
update_status-Quiet o (some o', b) = (refl, λ e. e)

update_makes_no_release : (o : Unstructured) (s : World) → NoNewRelease view s (server.update o s).1
update_makes_no_release o (none, b) e = ground (arith, e)
update_makes_no_release o (some p, b) e = ground (arith, e)

found_as_stored :
    (o : Unstructured) (s t : World)
    → server.get "ns" "web" s ≡ (ok o, t)
    → IsNamed web "ns" "web" o × (view.finalizers t ≡ some o.finalizers)
found_as_stored o (none, b) t e = absurd (ground (arith, e))
found_as_stored o (some p, b) t e =
    let kept : (some p, b) ≡ t = ground (arith, e) in
    let same : record p { gvk = web; namespace = "ns"; name = "web" } ≡ o = ground (arith, e) in
    (
      subst (IsNamed web "ns" "web") same (refl, refl, refl),
      sym (ap view.finalizers kept) ∙ ap (λ q. some (Unstructured.finalizers q)) same,
    )

stored-finalizers :
    (o : Unstructured)
    → (finalizers_of (stored o) ≡ some o.finalizers)
      ⊎ ((finalizers_of (stored o) ≡ none) × (is_some o.deletion_timestamp ≡ true))
stored-finalizers o = elim (Bool-cases (ends o)) [
  | inr stays ↦ inl (ground (arith, stays))
  | inl gone ↦ inr (ground (arith, gone), ground (arith, gone))
]

named-is_web : (o : Unstructured) → IsNamed web "ns" "web" o → is_web o ≡ true
named-is_web o (kind, namespace, name) = rw (kind, namespace, name) refl

sent_as_stored :
    (o a : Unstructured) (s t : World)
    → IsNamed web "ns" "web" o
    → server.update o s ≡ (ok a, t)
    → (view.finalizers t ≡ some o.finalizers)
      ⊎ ((view.finalizers t ≡ none) × (is_some o.deletion_timestamp ≡ true))
sent_as_stored o a (none, b) t named e =
    let ours = named-is_web o named in absurd (ground (arith, ours, e))
sent_as_stored o a (some p, b) t named e =
    let ours = named-is_web o named in
    let same : t ≡ (stored o, b) = ground (arith, ours, e) in rw same (stored-finalizers o)

answered_as_sent : (o a : Unstructured) (s t : World) → server.update o s ≡ (ok a, t) → o ≡ a
answered_as_sent o a (none, b) t e = ground (arith, e)
answered_as_sent o a (some p, b) t e = ground (arith, e)

refused_as_is :
    (o : Unstructured) (s t : World) (x : Error)
    → server.update o s ≡ (err x, t)
    → SameFinalizers view s t
refused_as_is o (none, b) t x e = ground (arith, e)
refused_as_is o (some p, b) t x e = absurd (ground (arith, e))

polled_once :
    (P : World → Type 0) (test : Unstructured → World → (Result Bool × Unstructured) × World)
    (o : Unstructured) (s : World)
    → ((o' : Unstructured) (t : World) → P t → P (test o' t).1)
    → P s
    → P (server.poll test o s).1
polled_once P test o s keeps p = elim (Result-cases (test o s).0.0) [
  | inl (b, e) ↦
      let same : (server.poll test o s).1 ≡ (test o s).1 = ground (arith, e) in
      subst P (sym same) (keeps o s p)
  | inr (x, e) ↦
      let same : (server.poll test o s).1 ≡ (test o s).1 = ground (arith, e) in
      subst P (sym same) (keeps o s p)
]

server-ServerTracks : ServerTracks server view web "ns" "web"
server-ServerTracks = record {
  retried = λ P test f s keeps p. keeps s p;
  polled = polled_once;
  reads = λ ns n s. (refl, λ e. e);
  found = found_as_stored;
  status_sent = update_status-Quiet;
  sent = sent_as_stored;
  answered = λ o a s t named e. subst (IsNamed web "ns" "web") (answered_as_sent o a s t e) named;
  refused = refused_as_is;
  makes_no_release = update_makes_no_release;
}

run_get-Quiet : (a : GetAction) (n : String) (s : World) → Quiet view s (world_helm.run_get a n s).1
run_get-Quiet a n (o, b) = (ground arith, λ e. ground (arith, e))

run_uninstall-Quiet :
    (a : UninstallAction) (n : String) (s : World) → Quiet view s (world_helm.run_uninstall a n s).1
run_uninstall-Quiet a n (o, b) = (ground arith, λ e. ground (arith, e))

run_uninstall_ends :
    (a : UninstallAction) (n : String) (s t : World) (answer : Result Release)
    → n ≡ "web"
    → Removes a
    → world_helm.run_uninstall a n s ≡ (answer, t)
    → view.released t ≡ false
run_uninstall_ends a n (o, b) t answer named (runs, forgets, tells) e =
    ground (arith, eq_iff n "web", named, runs, forgets, tells, e)

world_helm-HelmTracks : HelmTracks view "web" world_helm
world_helm-HelmTracks = record {
  removes = (refl, refl, refl);
  gets = run_get-Quiet;
  installs = λ a chrt vals s. refl;
  upgrades = λ a n chrt vals s. refl;
  rolls_back = λ a n s. refl;
  uninstalls = run_uninstall-Quiet;
  uninstalled = λ a n s t x. run_uninstall_ends a n s t (ok x);
  missing = λ a n s t x named removes e _. run_uninstall_ends a n s t (err x) named removes e;
  visits = λ P f infos s kept p. p;
  objects = λ ns n s. refl;
  creates = λ ns d s. refl;
  patches = λ ns n t p s. refl;
}

driven-Tracks : Tracks server view driven web "ns" "web"
unfolding annotation_options
driven-Tracks = record {
  clients = λ o s. (refl, λ e. e);
  client_tracks = λ o s t c _ e.
      let same : action_interface world_helm plain_actions ≡ c = ground (arith, e) in
      subst (ClientTracks view "web") same
        (action_interface-ClientTracks world_helm-HelmTracks plain_actions tt);
  plain_options = λ annotations. tt;
  pre_hooks = tt;
  post_hooks = tt;
  handler = λ h o s e. absurd (ground (arith, e));
}

-- The resource is created, reconciled, deleted, and reconciled.
abbrev installed : World
installed = (some (record resource { finalizers = uninstall_finalizer ∷ [] }), true)

abbrev dying : World
dying = (
  some (record resource { finalizers = uninstall_finalizer ∷ []; deletion_timestamp = some 7 }),
  true,
)

abbrev created : World
created = (some (record resource { finalizers = [] }), false)

installs_it : (reconcile server driven 5 "ns" "web" created).1 ≡ installed
unfolding reconcile action_interface apply_options default_translator ensure_condition
    ensure_deployed_release paused deployed initialized irreconcilable release_failed
installs_it = refl

uninstalls_it : (reconcile server driven 9 "ns" "web" dying).1 ≡ nothing
unfolding reconcile action_interface apply_options default_translator ensure_condition
    ensure_deployed_release paused deployed initialized irreconcilable release_failed
    remove_deployed_release remove_finalizer
uninstalls_it = refl

life : Reach server view driven "ns" "web" nothing nothing
life =
    let start : Reach server view driven "ns" "web" nothing created =
      next here (outside nothing created (λ e. e) (λ held. absurd (ground (arith, held.1)))) in
    let up : Reach server view driven "ns" "web" nothing installed =
      subst (Reach server view driven "ns" "web" nothing) installs_it
        (next start (reconciled 5 created)) in
    let down : Reach server view driven "ns" "web" nothing dying =
      next up (outside installed dying (λ e. e) (λ held. held)) in
    subst (Reach server view driven "ns" "web" nothing) uninstalls_it
      (next down (reconciled 9 dying))

Reach-IsGuarded_example : IsGuarded view nothing
Reach-IsGuarded_example =
    Reach-IsGuarded server view driven web "ns" "web" nothing nothing server-ServerTracks
      driven-Tracks (inl refl) life

action_interface-ClientTracks_example :
    ClientTracks view "web" (action_interface world_helm plain_actions)
action_interface-ClientTracks_example =
    action_interface-ClientTracks world_helm-HelmTracks plain_actions tt
