-- ===== src/Client/PostRenderer/Owner/Marked.antt =====
-- What the renderer makes of a release, and that the watcher of dependent resources agrees with it.
use helm_operator_plugins.Object.{Unstructured}
use helm_operator_plugins.Controllerutil.{RestMapper, supports_owner_reference}
use helm_operator_plugins.Manifestutil.{has_resource_policy_keep}
use helm_operator_plugins.Client.PostRenderer.Owner.{
  RenderLib, mark_owner, render_resource, render_owned,
}
use helm_operator_plugins.Hook.{for_owner, for_annotation, handler_for}
use helm_operator_plugins.Exec.{Exec, continue}
use helm_operator_plugins.Prelude.{
  Bool-cases, Error, Result, ok, err, Result-cases, String, ◌<>◌, ◌≡◌, refl, sym, ap, subst, ◌∙◌,
  ◌⊎◌, inl, inr, Bool, true, false, Option, none, List, [], ◌∷◌, ◌++◌, arith,
}

-- A ResourceList is visited in order, up to the first error.
pub record VisitsInOrder (lib : RenderLib) : Type 0 where
  pub visit_nil :
      (f : lib.Info → Option Error → Exec String (Unit {0})) (out : String)
      → lib.visit f [] out ≡ (ok tt, out)
  pub visit_cons :
      (f : lib.Info → Option Error → Exec String (Unit {0})) (r : lib.Info) (rs : List lib.Info)
      (out : String)
      → lib.visit f (r ∷ rs) out ≡ continue (f r none out).0 (λ _. lib.visit f rs) (f r none out).1

module _ (lib : RenderLib) (rest_mapper : RestMapper) (owner : Unstructured) where
  -- The mark that the resource `u` has and `v` does not.
  pub data Owned (v u : Unstructured) : Type 0 where
    by_reference :
        supports_owner_reference rest_mapper owner v ≡ ok true
        → has_resource_policy_keep lib.normalize v.annotations ≡ false
        → u ≡ record v {
          owner_references = v.owner_references ++ (lib.new_controller_ref owner ∷ []);
        }
        → Owned v u
    by_annotation :
        (use_owner_ref : Bool)
        → supports_owner_reference rest_mapper owner v ≡ ok use_owner_ref
        → (use_owner_ref ≡ false) ⊎ (has_resource_policy_keep lib.normalize v.annotations ≡ true)
        → lib.set_owner_annotations owner v ≡ ok u
        → Owned v u

  -- The text that is written for resources: a document for each, in order, of the marked resource.
  pub data Rendered : List lib.Info → String → String → Type 0 where
    finished : (out : String) → Rendered [] out out
    document :
        (r : lib.Info) (rs : List lib.Info) (v u : Unstructured) (y out full : String)
        → lib.to_unstructured r ≡ ok v
        → Owned v u
        → lib.marshal u ≡ ok y
        → Rendered rs (out <> ("---\n" <> y)) full
        → Rendered (r ∷ rs) out full

  mark_owner-Owned : (v u : Unstructured) → mark_owner lib rest_mapper owner v ≡ ok u → Owned v u
  unfolding mark_owner
  mark_owner-Owned v u h = elim (Result-cases (supports_owner_reference rest_mapper owner v)) [
    | inr (x, e) ↦ ground (arith, e, h)
    | inl (use_owner_ref, e) ↦ elim (Bool-cases use_owner_ref) [
      | inr p ↦ by_annotation use_owner_ref e (inl p) (ground (arith, e, h, p))
      | inl p ↦ elim (Bool-cases (has_resource_policy_keep lib.normalize v.annotations)) [
        | inl q ↦ by_annotation use_owner_ref e (inr q) (ground (arith, e, h, p, q))
        | inr q ↦ by_reference (ground (arith, e, p)) q (ground (arith, e, h, p, q))
      ]
    ]
  ]

  ok_pair :
      (q : Result (Unit {0}) × String) (out : String)
      → elim (q.0) as (λ _. Result String) [ err e ↦ err e | ok _ ↦ ok q.1 ] ≡ ok out
      → q ≡ (ok tt, out)
  ok_pair (ok tt, o) out h = ground (arith, h)
  ok_pair (err x, o) out h = ground (arith, h)

  -- What one visit that succeeds has written.
  written :
      (r : lib.Info) (rs : List lib.Info) (out out' full : String)
      → render_resource lib rest_mapper owner r none out ≡ (ok tt, out')
      → Rendered rs out' full
      → Rendered (r ∷ rs) out full
  unfolding render_resource
  written r rs out out' full h rest = elim (Result-cases (lib.to_unstructured r)) [
    | inr (x, e) ↦ ground (arith, e, h)
    | inl (v, e) ↦ elim (Result-cases (mark_owner lib rest_mapper owner v)) [
      | inr (x, m) ↦ ground (arith, e, m, h)
      | inl (u, m) ↦ elim (Result-cases (lib.marshal u)) [
        | inr (x, y) ↦ ground (arith, e, m, y, h)
        | inl (y, d) ↦
            let same : out' ≡ out <> ("---\n" <> y) = ground (arith, e, m, d, h) in
            document r rs v u y out full e (mark_owner-Owned v u m) d
              (subst (λ o. Rendered rs o full) same rest)
      ]
    ]
  ]

  visited_step :
      (r : lib.Info) (rs : List lib.Info) (out full : String) (q : Result (Unit {0}) × String)
      → render_resource lib rest_mapper owner r none out ≡ q
      → continue q.0 (λ _. lib.visit (render_resource lib rest_mapper owner) rs) q.1 ≡ (ok tt, full)
      → ((o : String)
          → lib.visit (render_resource lib rest_mapper owner) rs o ≡ (ok tt, full)
          → Rendered rs o full)
      → Rendered (r ∷ rs) out full
  visited_step r rs out full (ok tt, out') e h rest = written r rs out out' full e (rest out' h)
  visited_step r rs out full (err x, out') e h rest = ground (arith, h)

  visited :
      VisitsInOrder lib
      → (rs : List lib.Info) (out full : String)
      → lib.visit (render_resource lib rest_mapper owner) rs out ≡ (ok tt, full)
      → Rendered rs out full
  visited order [] out full h =
      let e : out ≡ full =
        ground (arith, h, order.visit_nil (render_resource lib rest_mapper owner) out) in
      subst (λ o. Rendered [] out o) e (finished out)
  visited order (r ∷ rs) out full h =
      visited_step r rs out full (render_resource lib rest_mapper owner r none out) refl
        (sym (order.visit_cons (render_resource lib rest_mapper owner) r rs out) ∙ h)
        (λ o k. visited order rs o full k)

  ok_of_visit :
      {manifest : String} (rs : List lib.Info) (out : String)
      → lib.build manifest ≡ ok rs
      → render_owned lib rest_mapper owner manifest ≡ ok out
      → lib.visit (render_resource lib rest_mapper owner) rs "" ≡ (ok tt, out)
  unfolding render_owned
  ok_of_visit {manifest} rs out e h =
      ok_pair (lib.visit (render_resource lib rest_mapper owner) rs "") out (ground (arith, e, h))

  -- If the default post-renderer succeeds, it has written one document for each resource of the
  -- release, in order, and each resource is marked: with an owner reference exactly where the
  -- custom resource may own it and its policy is not to be kept, and else by annotations.
  pub render_owned-Rendered :
      (manifest out : String)
      → VisitsInOrder lib
      → render_owned lib rest_mapper owner manifest ≡ ok out
      → (rs : List lib.Info) × (lib.build manifest ≡ ok rs) × Rendered rs "" out
  unfolding render_owned
  render_owned-Rendered manifest out order h = elim (Result-cases (lib.build manifest)) [
    | inr (x, e) ↦ ground (arith, e, h)
    | inl (rs, e) ↦ (rs, e, visited order rs "" out (ok_of_visit rs out e h))
  ]

  -- The annotations that mark a resource leave its kind and its namespace, and its policy.
  abbrev pub KeepsPolicy : Type 0
  KeepsPolicy =
      (v u : Unstructured)
      → lib.set_owner_annotations owner v ≡ ok u
      → (u.gvk ≡ v.gvk)
        × (u.namespace ≡ v.namespace)
        × (has_resource_policy_keep lib.normalize u.annotations
            ≡ has_resource_policy_keep lib.normalize v.annotations)

  same_support :
      (v u : Unstructured)
      → u.gvk ≡ v.gvk
      → u.namespace ≡ v.namespace
      → supports_owner_reference rest_mapper owner u ≡ supports_owner_reference rest_mapper owner v
  unfolding supports_owner_reference
  same_support v u g n = rw (g, n) refl

  handler_of_Owned :
      (v u : Unstructured)
      → KeepsPolicy
      → Owned v u
      → (use_owner_ref : Bool) × (supports_owner_reference rest_mapper owner u ≡ ok use_owner_ref)
        × (((handler_for lib.normalize use_owner_ref u.annotations ≡ for_owner)
              × (u.owner_references ≡ v.owner_references ++ (lib.new_controller_ref owner ∷ [])))
            ⊎ ((handler_for lib.normalize use_owner_ref u.annotations ≡ for_annotation)
                × (lib.set_owner_annotations owner v ≡ ok u)))
  unfolding handler_for
  handler_of_Owned v u keeps (by_reference e q same) = (
    true,
    same_support v u (ap (λ x. x.gvk) same) (ap (λ x. x.namespace) same) ∙ e,
    inl (ground (arith, q, ap (λ x. x.annotations) same), ap (λ x. x.owner_references) same),
  )
  handler_of_Owned v u keeps (by_annotation use_owner_ref e reason marked) =
      let (g, n, p) = keeps v u marked in
      (use_owner_ref, same_support v u g n ∙ e, inr (ground (arith, reason, p), marked))

  -- The watcher of dependent resources and the renderer agree, where the annotations that mark a
  -- resource leave its kind, its namespace and its policy: for a resource that the renderer has
  -- marked, the watcher looks for owner references exactly if the renderer has added the reference
  -- to the custom resource, and for annotations if it has set those.
  pub handler_for-mark_owner :
      (v u : Unstructured)
      → KeepsPolicy
      → mark_owner lib rest_mapper owner v ≡ ok u
      → (use_owner_ref : Bool) × (supports_owner_reference rest_mapper owner u ≡ ok use_owner_ref)
        × (((handler_for lib.normalize use_owner_ref u.annotations ≡ for_owner)
              × (u.owner_references ≡ v.owner_references ++ (lib.new_controller_ref owner ∷ [])))
            ⊎ ((handler_for lib.normalize use_owner_ref u.annotations ≡ for_annotation)
                × (lib.set_owner_annotations owner v ≡ ok u)))
  handler_for-mark_owner v u keeps h = handler_of_Owned v u keeps (mark_owner-Owned v u h)
