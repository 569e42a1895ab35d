-- ===== src/Reconciler/Setup/Keeping.antt =====
-- What SetupWithManager keeps of the outside state: whatever the calls of the manager keep.
use helm_operator_plugins.Reconciler.Settings.{Kit, Settings}
use helm_operator_plugins.Reconciler.Setup.{
  Source, primary, owned_secrets, Manager, add_defaults, setup_scheme, selector_predicates,
  setup_watches, run_setup_funcs, kind_of, setup_with_manager,
}
use helm_operator_plugins.Reconciler.Setup.Filled.{add_defaults-eq-ok, setup_watches-eq-ok}
use helm_operator_plugins.Client.Config.{ConfigLib}
use helm_operator_plugins.Exec.{Exec}
use helm_operator_plugins.Object.{GroupVersionKind}
use helm_operator_plugins.Prelude.{
  if◌then◌else◌, Bool-cases, ℤ, Result-cases, String, ◌<>◌, ◌≡◌, refl, sym, ap, subst, ◌∙◌, inl,
  inr, List, [], ◌∷◌, arith,
}

-- A call keeps the predicate, whether it fails or not.
abbrev pub Keeping : {S A : Type 0} → (S → Type 0) → Exec S A → Type 0
Keeping {S} P m = (s : S) → P s → P (m s).1

pub record ManagerKeeps {kit : Kit} {conf : ConfigLib} {S : Type 0} (mgr : Manager kit conf S)
    (P : S → Type 0) : Type 0 where
  pub types : (gvk : GroupVersionKind) (s : S) → P s → P (mgr.add_known_type gvk s)
  pub groups : (group version : String) (s : S) → P s → P (mgr.add_to_group_version group version s)
  pub controllers : (name : String) (workers : ℤ) → Keeping P (mgr.new_controller name workers)
  pub watches :
      (c : kit.Controller) (source : Source mgr.Predicate) → Keeping P (mgr.watch c source)
  pub hooks :
      (c : kit.Controller) (ws : List GroupVersionKind) (s : S) → P s → P (mgr.write_watches c ws s)

module _ {kit : Kit} {conf : ConfigLib} {S : Type 0} (mgr : Manager kit conf S) (P : S → Type 0)
    (keeps : ManagerKeeps mgr P) where
  setup_scheme-keeps : (gvk : GroupVersionKind) (s : S) → P s → P (setup_scheme mgr gvk s)
  unfolding setup_scheme
  setup_scheme-keeps gvk s p =
      keeps.groups gvk.group gvk.version (mgr.add_known_type gvk s) (keeps.types gvk s p)

  setup_watches-keeps :
      (gvk : GroupVersionKind) (r : Settings kit S) (c : kit.Controller)
      → Keeping P (setup_watches mgr gvk r c)
  unfolding setup_watches
  setup_watches-keeps gvk r c s p =
      let whole = setup_watches mgr gvk r c s in
      elim (Result-cases (selector_predicates mgr r.label_selector)) [
        | inr (x, e) ↦ let same : whole.1 ≡ s = ground (arith, e) in subst P (sym same) p
        | inl (preds, e) ↦
            let one = mgr.watch c (primary gvk preds) s in
            let p1 = keeps.watches c (primary gvk preds) s p in
            elim (Result-cases one.0) [
              | inr (x, f) ↦
                  let same : whole.1 ≡ one.1 = ground (arith, e, f) in subst P (sym same) p1
              | inl (done, f) ↦
                  let two = mgr.watch c (owned_secrets gvk preds) one.1 in
                  let p2 = keeps.watches c (owned_secrets gvk preds) one.1 p1 in
                  elim (Result-cases two.0) [
                    | inr (x, g) ↦
                        let same : whole.1 ≡ two.1 = ground (arith, e, f, g) in
                        subst P (sym same) p2
                    | inl (done', g) ↦ elim (Bool-cases r.skip_dependent_watches) [
                      | inl skip ↦
                          let same : whole.1 ≡ two.1 = ground (arith, e, f, g, skip) in
                          subst P (sym same) p2
                      | inr want ↦
                          let same : whole.1 ≡ mgr.write_watches c [] two.1 =
                            ground (arith, e, f, g, want) in
                          subst P (sym same) (keeps.hooks c [] two.1 p2)
                    ]
                  ]
            ]
      ]

  abbrev in_scheme : GroupVersionKind → Settings kit S → S → S
  in_scheme gvk r s = if r.skip_primary_gvk_scheme_registration then s else setup_scheme mgr gvk s

  in_scheme-keeps :
      (gvk : GroupVersionKind) (r : Settings kit S) (s : S) → P s → P (in_scheme gvk r s)
  in_scheme-keeps gvk r s p = elim (Bool-cases r.skip_primary_gvk_scheme_registration) [
    | inl skip ↦ let same : in_scheme gvk r s ≡ s = ground (arith, skip) in subst P (sym same) p
    | inr want ↦
        let same : in_scheme gvk r s ≡ setup_scheme mgr gvk s = ground (arith, want) in
        subst P (sym same) (setup_scheme-keeps gvk s p)
  ]

  none_set_up :
      (fs : List (kit.Controller → Exec S (Unit {0}))) (c : kit.Controller) (s : S)
      → fs ≡ []
      → (run_setup_funcs mgr fs c s).1 ≡ s
  unfolding run_setup_funcs
  none_set_up [] c s e = refl
  none_set_up (f ∷ fs) c s e = absurd (ground (arith, e))

  -- Without setup functions of its own, a reconciler is set up by calls of the manager alone.
  pub setup_with_manager-keeps :
      (r : Settings kit S) → r.controller_setup_funcs ≡ [] → Keeping P (setup_with_manager mgr r)
  unfolding setup_with_manager
  setup_with_manager-keeps r plain s p =
      let whole = setup_with_manager mgr r s in
      elim (Result-cases (kind_of mgr r)) [
        | inr (x, e) ↦ let same : whole.1 ≡ s = ground (arith, e) in subst P (sym same) p
        | inl (gvk, e) ↦
            let name = mgr.to_lower gvk.kind <> "-controller" in
            elim (Result-cases (add_defaults mgr name r)) [
              | inr (x, d) ↦ let same : whole.1 ≡ s = ground (arith, e, d) in subst P (sym same) p
              | inl (f, d) ↦
                  let s' = in_scheme gvk r s in
                  let p1 = in_scheme-keeps gvk r s p in
                  let made = mgr.new_controller name f.max_concurrent_reconciles s' in
                  let p2 = keeps.controllers name f.max_concurrent_reconciles s' p1 in
                  elim (Result-cases made.0) [
                    | inr (x, m) ↦
                        let same : whole.1 ≡ made.1 = ground (arith, e, d, m) in
                        subst P (sym same) p2
                    | inl (c, m) ↦
                        let watched = setup_watches mgr gvk f c made.1 in
                        let p3 = setup_watches-keeps gvk f c made.1 p2 in
                        elim (Result-cases watched.0) [
                          | inr (x, w) ↦
                              let same : whole.1 ≡ watched.1 = ground (arith, e, d, m, w) in
                              subst P (sym same) p3
                          | inl (g, w) ↦
                              let (_, filled_in, _) = add_defaults-eq-ok mgr name r f d in
                              let seen =
                                setup_watches-eq-ok mgr gvk f g c made.1 watched.1
                                  (ground (arith, w)) in
                              let none_set : g.controller_setup_funcs ≡ [] =
                                ap (λ x. x.controller_setup_funcs) seen
                                ∙ ap (λ x. x.controller_setup_funcs) filled_in
                                ∙ plain in
                              let same : whole.1
                                  ≡ (run_setup_funcs mgr g.controller_setup_funcs c watched.1).1 =
                                ground (arith, e, d, m, w) in
                              subst P
                                (sym (
                                  same ∙ none_set_up g.controller_setup_funcs c watched.1 none_set))
                                p3
                        ]
                  ]
            ]
      ]
