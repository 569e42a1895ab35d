-- ===== src/Hook/Watched.antt =====
-- Which kinds are watched after the hook has run.
use helm_operator_plugins.Object.{GroupVersionKind, Unstructured}
use helm_operator_plugins.Controllerutil.{RestMapper}
use helm_operator_plugins.Hook.{
  WatchLib, Watching, same_kind, is_empty, is_watched, list_kind, set_watch_on_resource,
  each_list_item, watch_document, watch_resources, run_hook,
}
use helm_operator_plugins.Exec.{Exec, continue, ◌>>◌}
use helm_operator_plugins.Release.{Release}
use helm_operator_plugins.Prelude.{
  All, Result, ok, err, String, ◌≡◌, refl, ◌⊎◌, inl, inr, true, false, List, [], ◌∷◌, arith, eq_iff,
}

module _ {S Doc : Type 0} (lib : WatchLib S Doc) (rest_mapper : RestMapper)
    (owner : Unstructured) where
  -- A document, if it can be decoded, is no List.
  abbrev pub IsPlain : String → Type 0
  IsPlain r = (d : Doc) → lib.unmarshal r ≡ ok d → same_kind (lib.decoded d).gvk list_kind ≡ false

  same_kind_refl : (a : GroupVersionKind) → same_kind a a ≡ true
  same_kind_refl a =
      ground (arith, eq_iff a.group a.group, eq_iff a.version a.version, eq_iff a.kind a.kind)

  -- A watch adds its kind, if it adds anything.
  set_watch-keeps :
      (g h : GroupVersionKind) (obj : Unstructured) (w w' : Watching S)
      → set_watch_on_resource lib rest_mapper owner g obj w ≡ (ok tt, w')
      → is_watched h w.watches ≡ true
      → is_watched h w'.watches ≡ true
  unfolding set_watch_on_resource
  set_watch-keeps g h obj w w' e there = ground (arith, e, there)

  set_watch_again :
      (obj : Unstructured) (w w' : Watching S)
      → set_watch_on_resource lib rest_mapper owner obj.gvk obj w ≡ (ok tt, w')
      → (is_empty obj.gvk ≡ true) ⊎ (is_watched obj.gvk w'.watches ≡ true)
  unfolding set_watch_on_resource
  set_watch_again obj w w' e = ground (arith, e, same_kind_refl obj.gvk)

  -- An item of a list leaves its own kind unrecorded.
  set_watch-forgets :
      (g h : GroupVersionKind) (obj : Unstructured) (w : Watching S)
      → same_kind g h ≡ false
      → is_watched h w.watches ≡ false
      → is_watched h (set_watch_on_resource lib rest_mapper owner g obj w).1.watches ≡ false
  unfolding set_watch_on_resource
  set_watch-forgets g h obj w e there = ground (arith, e, there)

  and_then-forgets :
      (h : GroupVersionKind) (q : Result (Unit {0}) × Watching S) (m : Exec (Watching S) (Unit {0}))
      → is_watched h q.1.watches ≡ false
      → ((v : Watching S) → is_watched h v.watches ≡ false → is_watched h (m v).1.watches ≡ false)
      → is_watched h (continue q.0 (λ _. m) q.1).1.watches ≡ false
  and_then-forgets h (ok _, v) m there f = f v there
  and_then-forgets h (err _, v) m there f = there

  each_list_item-forgets :
      (g h : GroupVersionKind) (items : List (Result Unstructured)) (w : Watching S)
      → same_kind g h ≡ false
      → is_watched h w.watches ≡ false
      → is_watched h (each_list_item lib rest_mapper owner g items w).1.watches ≡ false
  unfolding each_list_item
  each_list_item-forgets g h [] w e there = there
  each_list_item-forgets g h (err x ∷ items) w e there = there
  each_list_item-forgets g h (ok obj ∷ items) w e there =
      and_then-forgets h (set_watch_on_resource lib rest_mapper owner g obj w)
        (each_list_item lib rest_mapper owner g items) (set_watch-forgets g h obj w e there)
        (λ v k. each_list_item-forgets g h items v e k)

  -- Whatever the items of a List are, after the hook has seen the List it records no kind but
  -- List: a kind that was not recorded before is not recorded afterwards, also if it was watched.
  pub list_kind_only :
      (d : Doc) (h : GroupVersionKind) (w : Watching S)
      → same_kind (lib.decoded d).gvk list_kind ≡ true
      → same_kind (lib.decoded d).gvk h ≡ false
      → is_watched h w.watches ≡ false
      → is_watched h (watch_document lib rest_mapper owner d w).1.watches ≡ false
  unfolding watch_document
  list_kind_only d h w listed apart there = ground (
    arith,
    listed,
    there,
    each_list_item-forgets (lib.decoded d).gvk h (lib.list_items d) w apart there,
  )

  watch_document-keeps :
      (d : Doc) (h : GroupVersionKind) (w w' : Watching S)
      → same_kind (lib.decoded d).gvk list_kind ≡ false
      → watch_document lib rest_mapper owner d w ≡ (ok tt, w')
      → is_watched h w.watches ≡ true
      → is_watched h w'.watches ≡ true
  unfolding watch_document
  watch_document-keeps d h w w' plain e there =
      ground (arith, plain, e, there, set_watch-keeps (lib.decoded d).gvk h (lib.decoded d) w w')

  -- A kind that needs no watch any more.
  abbrev IsSettled : Doc → Watching S → Type 0
  IsSettled d w =
      (is_empty (lib.decoded d).gvk ≡ true) ⊎ (is_watched (lib.decoded d).gvk w.watches ≡ true)

  watch_document_settles :
      (d : Doc) (w w' : Watching S)
      → same_kind (lib.decoded d).gvk list_kind ≡ false
      → watch_document lib rest_mapper owner d w ≡ (ok tt, w')
      → IsSettled d w'
  unfolding watch_document
  watch_document_settles d w w' plain e =
      ground (arith, plain, e, set_watch_again (lib.decoded d) w w')

  watch_document_settled :
      (d : Doc) (w : Watching S)
      → same_kind (lib.decoded d).gvk list_kind ≡ false
      → IsSettled d w
      → watch_document lib rest_mapper owner d w ≡ (ok tt, w)
  unfolding watch_document set_watch_on_resource
  watch_document_settled d w plain settled = ground (arith, plain, settled)

  then_ok :
      (q : Result (Unit {0}) × Watching S) (m : Exec (Watching S) (Unit {0})) (w' : Watching S)
      → continue q.0 (λ _. m) q.1 ≡ (ok tt, w')
      → (q ≡ (ok tt, q.1)) × (m q.1 ≡ (ok tt, w'))
  then_ok (ok tt, v) m w' e = (refl, e)
  then_ok (err x, v) m w' e = ground (arith, e)

  decoded_ok :
      (q : Result Doc) (f : Doc → Exec (Watching S) (Unit {0})) (w w' : Watching S)
      → continue q f w ≡ (ok tt, w')
      → (d : Doc) × (q ≡ ok d) × (f d w ≡ (ok tt, w'))
  decoded_ok (ok d) f w w' e = (d, refl, e)
  decoded_ok (err x) f w w' e = ground (arith, e)

  watch_resources-keeps :
      (rs : List String) (h : GroupVersionKind) (w w' : Watching S)
      → All IsPlain rs
      → watch_resources lib rest_mapper owner rs w ≡ (ok tt, w')
      → is_watched h w.watches ≡ true
      → is_watched h w'.watches ≡ true
  unfolding watch_resources
  watch_resources-keeps [] h w w' plain e there = ground (arith, e, there)
  watch_resources-keeps (r ∷ rs) h w w' (p, plain) e there =
      let (d, u, e1) =
        decoded_ok (lib.unmarshal r)
          (λ d. watch_document lib rest_mapper owner d >> watch_resources lib rest_mapper owner rs)
          w w' e in
      let v = (watch_document lib rest_mapper owner d w).1 in
      let (done, e2) =
        then_ok (watch_document lib rest_mapper owner d w)
          (watch_resources lib rest_mapper owner rs) w' e1 in
      watch_resources-keeps rs h v w' plain e2 (watch_document-keeps d h w v (p d u) done there)

  watch_resources_again :
      (rs : List String) (w w' : Watching S)
      → All IsPlain rs
      → watch_resources lib rest_mapper owner rs w ≡ (ok tt, w')
      → watch_resources lib rest_mapper owner rs w' ≡ (ok tt, w')
  unfolding watch_resources
  watch_resources_again [] w w' plain e = refl
  watch_resources_again (r ∷ rs) w w' (p, plain) e =
      let (d, u, e1) =
        decoded_ok (lib.unmarshal r)
          (λ d. watch_document lib rest_mapper owner d >> watch_resources lib rest_mapper owner rs)
          w w' e in
      let v = (watch_document lib rest_mapper owner d w).1 in
      let (done, e2) =
        then_ok (watch_document lib rest_mapper owner d w)
          (watch_resources lib rest_mapper owner rs) w' e1 in
      let settled : IsSettled d w' = elim (watch_document_settles d w v (p d u) done) [
        | inl empty ↦ inl empty
        | inr there ↦ inr (watch_resources-keeps rs (lib.decoded d).gvk v w' plain e2 there)
      ] in
      rw (u, watch_document_settled d w' (p d u) settled) (watch_resources_again rs v w' plain e2)

  -- If the hook has succeeded for a release without documents of kind List, it does nothing when
  -- it runs for the release again: it sets up no watch and records none.
  pub run_hook_again :
      (rel : Release) (w w' : Watching S)
      → All IsPlain (lib.split_manifests rel.manifest)
      → run_hook lib rest_mapper owner rel w ≡ (ok tt, w')
      → run_hook lib rest_mapper owner rel w' ≡ (ok tt, w')
  unfolding run_hook
  run_hook_again rel w w' plain e =
      watch_resources_again (lib.split_manifests rel.manifest) w w' plain e
