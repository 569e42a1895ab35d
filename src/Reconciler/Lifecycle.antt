-- ===== src/Reconciler/Lifecycle.antt =====
-- The life of one custom resource and of its release, as its server and helm see it: what the calls
-- of Reconcile do to the finalizers and to the release, and the steps that others take.
pub mod Quiet
pub mod Deleting
pub mod Body
pub mod Guarded
pub mod Tracking
mod Data
mod Examples
use helm_operator_plugins.Object.{Values, Chart, GroupVersionKind, Unstructured}
use helm_operator_plugins.Cluster.{Cluster}
use helm_operator_plugins.Controllerutil.{contains_finalizer}
use helm_operator_plugins.Updater.Keeping.{RetryKeeps}
use helm_operator_plugins.Client.{UninstallAction, OptionFor}
use helm_operator_plugins.Client.Options.{InstallAction, UpgradeAction}
use helm_operator_plugins.Client.Actions.{ActionInterface}
use helm_operator_plugins.Reconciler.{
  PreHook, PostHook, Reconciler, uninstall_finalizer, annotation_options,
}
use helm_operator_plugins.Reconciler.Loop.{reconcile}
use helm_operator_plugins.Release.{Release}
use helm_operator_plugins.Prelude.{
  is_some, All, Dict, Error, Result, ok, err, is_release_not_found, ℕ, String, ◌≡◌, ◌⊎◌, Bool, true,
  false, Option, none, some, List, [],
}

-- What is seen of a state: the finalizers of the resource, if it is there, and whether helm has a
-- release for it.
pub record View (S : Type 0) : Type 0 where
  pub finalizers : S → Option (List String)
  pub released : S → Bool

-- An uninstall that is really to remove the release, and to say so if there is none.
abbrev pub Removes : UninstallAction → Type 0
Removes a = (a.dry_run ≡ false) × (a.keep_history ≡ false) × (a.ignore_not_found ≡ false)

-- An option of an uninstall that leaves it such a one, and where it fails, does not say that there is
-- no release.
abbrev pub IsPlain : OptionFor UninstallAction → Type 0
IsPlain o =
    ((a b : UninstallAction) → Removes a → o a ≡ ok b → Removes b)
    × ((a : UninstallAction) (e : Error) → o a ≡ err e → is_release_not_found e ≡ false)

-- The object is the resource of this kind, namespace and name.
abbrev pub IsNamed : GroupVersionKind → String → String → Unstructured → Type 0
IsNamed kind namespace name o = (o.gvk ≡ kind) × (o.namespace ≡ namespace) × (o.name ≡ name)

module _ {S : Type 0} (v : View S) where
  -- The resource is there, with the uninstall finalizer.
  abbrev pub IsHeld : S → Type 0
  IsHeld s =
      (fs : List String) × (v.finalizers s ≡ some fs)
      × (contains_finalizer fs uninstall_finalizer ≡ true)

  -- Helm has no release that nothing would uninstall.
  abbrev pub IsGuarded : S → Type 0
  IsGuarded s = (v.released s ≡ false) ⊎ IsHeld s

  abbrev pub SameFinalizers : S → S → Type 0
  SameFinalizers s t = v.finalizers t ≡ v.finalizers s

  -- There is a release afterwards only if there was one.
  abbrev pub NoNewRelease : S → S → Type 0
  NoNewRelease s t = v.released s ≡ false → v.released t ≡ false

  abbrev pub Quiet : S → S → Type 0
  Quiet s t = SameFinalizers s t × NoNewRelease s t

  -- What helm does: no call changes the finalizers, Get and Uninstall make no release, and an
  -- Uninstall of the release of this name with plain options that succeeds, or finds no release,
  -- leaves none.
  pub record ClientTracks (name : String) (c : ActionInterface S) : Type 0 where
    pub gets : (n : String) (s : S) → Quiet s (c.get n [] s).1
    pub installs :
        (n ns : String) (chrt : Chart) (vals : Values) (opts : List (OptionFor InstallAction))
        (s : S)
        → SameFinalizers s (c.install n ns chrt vals opts s).1
    pub upgrades :
        (n ns : String) (chrt : Chart) (vals : Values) (opts : List (OptionFor UpgradeAction))
        (s : S)
        → SameFinalizers s (c.upgrade n ns chrt vals opts s).1
    pub reconciles : (rel : Release) (s : S) → SameFinalizers s (c.reconcile rel s).1
    pub uninstalls :
        (n : String) (opts : List (OptionFor UninstallAction)) (s : S)
        → Quiet s (c.uninstall n opts s).1
    pub uninstalled :
        (n : String) (opts : List (OptionFor UninstallAction)) (s t : S) (rel : Release)
        → n ≡ name
        → All IsPlain opts
        → c.uninstall n opts s ≡ (ok rel, t)
        → v.released t ≡ false
    pub missing :
        (n : String) (opts : List (OptionFor UninstallAction)) (s t : S) (e : Error)
        → n ≡ name
        → All IsPlain opts
        → c.uninstall n opts s ≡ (err e, t)
        → is_release_not_found e ≡ true
        → v.released t ≡ false

-- What the API server does to the resource of this kind, namespace and name. Get answers with the
-- object that was asked for. An update of the resource that is accepted is stored with the finalizers
-- that were sent, unless it ends a deletion, and the answer is the same resource.
pub record ServerTracks (k : Cluster) (v : View k.State) (kind : GroupVersionKind)
    (namespace name : String) : Type 1 where
  pub retried : RetryKeeps k
  pub polled :
      (P : k.State → Type 0)
      (test : Unstructured → k.State → (Result Bool × Unstructured) × k.State) (o : Unstructured)
      (s : k.State)
      → ((o' : Unstructured) (t : k.State) → P t → P (test o' t).1)
      → P s
      → P (k.poll test o s).1
  pub reads : (ns n : String) (s : k.State) → Quiet v s (k.get ns n s).1
  pub found :
      (obj : Unstructured) (s t : k.State)
      → k.get namespace name s ≡ (ok obj, t)
      → IsNamed kind namespace name obj × (v.finalizers t ≡ some obj.finalizers)
  pub status_sent : (o : Unstructured) (s : k.State) → Quiet v s (k.update_status o s).1
  pub sent :
      (o a : Unstructured) (s t : k.State)
      → IsNamed kind namespace name o
      → k.update o s ≡ (ok a, t)
      → (v.finalizers t ≡ some o.finalizers)
        ⊎ ((v.finalizers t ≡ none) × (is_some o.deletion_timestamp ≡ true))
  pub answered :
      (o a : Unstructured) (s t : k.State)
      → IsNamed kind namespace name o
      → k.update o s ≡ (ok a, t)
      → IsNamed kind namespace name a
  pub refused :
      (o : Unstructured) (s t : k.State) (e : Error)
      → k.update o s ≡ (err e, t)
      → SameFinalizers v s t
  pub makes_no_release : (o : Unstructured) (s : k.State) → NoNewRelease v s (k.update o s).1

-- What the reconciler was given: its hooks and its pause handler leave the finalizers alone, the
-- handler also the release, the clients that are made for the resource do what helm does for the
-- release of its name, and the options of its annotations are plain.
pub record Tracks (k : Cluster) (v : View k.State) (r : Reconciler k.State)
    (kind : GroupVersionKind) (namespace name : String) : Type 0 where
  pub clients : (o : Unstructured) (s : k.State) → Quiet v s (r.action_client_for o s).1
  pub client_tracks :
      (o : Unstructured) (s t : k.State) (c : ActionInterface k.State)
      → IsNamed kind namespace name o
      → r.action_client_for o s ≡ (ok c, t)
      → ClientTracks v name c
  pub plain_options :
      (annotations : Dict String)
      → All IsPlain (annotation_options r.uninstall_annotations annotations)
  pub pre_hooks :
      All
        (λ (h : PreHook k.State).
          (o : Unstructured) (vals : Values) (s : k.State) → SameFinalizers v s (h o vals s).1)
        r.pre_hooks
  pub post_hooks :
      All
        (λ (h : PostHook k.State).
          (o : Unstructured) (rel : Release) (s : k.State) → SameFinalizers v s (h o rel s).1)
        r.post_hooks
  pub handler :
      (h : Unstructured → k.State → (Bool × Option Error) × k.State) (o : Unstructured)
      (s : k.State)
      → r.pause_handler ≡ some h
      → Quiet v s (h o s).1

module _ (k : Cluster) (v : View k.State) (r : Reconciler k.State) (namespace name : String) where
  -- A step of the system: a Reconcile of the resource, at any time, or anything that others do
  -- without making a release or taking the finalizer away.
  pub data Step : k.State → k.State → Type 0 where
    reconciled : (now : ℕ) (s : k.State) → Step s (reconcile k r now namespace name s).1
    outside : (s t : k.State) → NoNewRelease v s t → (IsHeld v s → IsHeld v t) → Step s t

  pub data Reach (s : k.State) : k.State → Type 0 where
    here : Reach s s
    next : {t u : k.State} → Reach s t → Step t u → Reach s u
