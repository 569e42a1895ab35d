-- ===== src/Annotation/Registered.antt =====
-- What is registered, and what the registered options do to an action.
use helm_operator_plugins.Annotation.{
  Named, flag, install_disable_hooks, upgrade_disable_hooks, upgrade_force, install_description,
  upgrade_description, AnnotationMaps, setup_annotation_maps, register, with_install_annotations,
  with_upgrade_annotations,
}
use helm_operator_plugins.Client.{apply_options}
use helm_operator_plugins.Client.Options.{InstallAction, UpgradeAction}
use helm_operator_plugins.Reconciler.{Annotation, annotation_options}
use helm_operator_plugins.Prelude.{
  if◌then◌else◌, Bool-cases, is_some, Dict, lookup, insert, lookup-insert, ok, Result-cases, String,
  ◌≡◌, sym, ap, ◌∙◌, inl, inr, Bool, true, Option, none, some, List, [], ◌∷◌, arith, ◌==◌, eq_iff,
}

-- The first annotation of a name in a list, or what is there without it.
abbrev pub first_of :
    {A : Type 0} → String → List (Named A) → Option (Annotation A) → Option (Annotation A)
first_of n [] o = o
first_of n (a ∷ given) o = if a.name == n then some a.option else first_of n given o

-- A name that is taken is not registered again.
register_taken :
    {A : Type 0} (given : List (Named A)) (names names' : Dict (Unit {0}))
    (known known' : Dict (Annotation A)) (n : String)
    → is_some (lookup n names) ≡ true
    → register given names known ≡ ok (names', known')
    → lookup n known' ≡ lookup n known
unfolding register
register_taken [] names names' known known' n h e = ground (arith)
register_taken (a ∷ given) names names' known known' n h e =
    elim (Bool-cases (is_some (lookup a.name names))) [
      | inl t ↦ ground (arith, t, e)
      | inr f ↦
          let rest =
            register_taken given (insert a.name tt names) names' (insert a.name a.option known)
              known' n (ground (arith, h, lookup-insert a.name n tt names))
              (ground (arith, f, e)) in
          elim (Bool-cases (a.name == n)) [
            | inl same ↦ ground (arith, f, h, eq_iff a.name n)
            | inr other_name ↦
                ground (arith, rest, other_name, lookup-insert a.name n a.option known)
          ]
    ]

register_lem :
    {A : Type 0} (given : List (Named A)) (names names' : Dict (Unit {0}))
    (known known' : Dict (Annotation A)) (n : String)
    → register given names known ≡ ok (names', known')
    → lookup n known' ≡ first_of n given (lookup n known)
unfolding register
register_lem [] names names' known known' n e = ground (arith)
register_lem (a ∷ given) names names' known known' n e =
    elim (Bool-cases (is_some (lookup a.name names))) [
      | inl t ↦ ground (arith, t, e)
      | inr f ↦
          let left : register given (insert a.name tt names) (insert a.name a.option known)
              ≡ ok (names', known') =
            ground (arith, f, e) in
          elim (Bool-cases (a.name == n)) [
            | inl same ↦ ground (
              arith,
              same,
              lookup-insert a.name n tt names,
              lookup-insert a.name n a.option known,
              register_taken given (insert a.name tt names) names' (insert a.name a.option known)
                  known' n (ground (arith, same, lookup-insert a.name n tt names)) left,
            )
            | inr other_name ↦ ground (
              arith,
              other_name,
              lookup-insert a.name n a.option known,
              register_lem given (insert a.name tt names) names' (insert a.name a.option known)
                  known' n left,
            )
          ]
    ]

-- The annotation's value as a flag, if the resource has the annotation.
abbrev pub flag_of : String → Dict String → Bool → Bool
flag_of n annotations b = elim (lookup n annotations) [ none ↦ b | some v ↦ flag v ]

abbrev pub text_of : String → Dict String → String → String
text_of n annotations d = elim (lookup n annotations) [ none ↦ d | some v ↦ v ]

-- WithInstallAnnotations fails, or the install annotations are those that were there before and
-- the given ones, each under its name; the annotations of the other actions stay.
pub with_install_annotations_lem :
    (given : List (Named InstallAction)) (r r' : AnnotationMaps) (n : String)
    → with_install_annotations given r ≡ ok r'
    → (lookup n r'.install_annotations ≡ first_of n given (lookup n r.install_annotations))
      × (r'.upgrade_annotations ≡ r.upgrade_annotations)
      × (r'.uninstall_annotations ≡ r.uninstall_annotations)
unfolding with_install_annotations
with_install_annotations_lem given r r' n h =
    elim (Result-cases (register given r.annotations r.install_annotations)) [
      | inl ((names, known), e) ↦
          let same : record r { annotations = names; install_annotations = known } ≡ r' =
            ground (arith, e, h) in
          (
            ap (λ x. lookup n x.install_annotations) (sym same)
                ∙ register_lem given r.annotations names r.install_annotations known n e,
            ap (λ x. x.upgrade_annotations) (sym same),
            ap (λ x. x.uninstall_annotations) (sym same),
          )
      | inr (e', e) ↦ ground (arith, e, h)
    ]

-- With the two install annotations registered, under any names that WithInstallAnnotations
-- accepts, the options that the reconciler collects from a resource's annotations never fail: they
-- set the description to the value of the one and DisableHooks to the flag of the other, where
-- the resource has them, and leave all else as it was.
pub install_annotations_lem :
    (c d : String) (annots : Dict String) (a : InstallAction) (r : AnnotationMaps)
    → with_install_annotations
        (install_description c ∷ install_disable_hooks d ∷ [])
        setup_annotation_maps
      ≡ ok r
    → apply_options (annotation_options r.install_annotations annots) a
      ≡ ok (record a {
        description = text_of (install_description c).name annots a.description;
        disable_hooks = flag_of (install_disable_hooks d).name annots a.disable_hooks;
      })
unfolding with_install_annotations register apply_options annotation_options install_description
    install_disable_hooks
install_annotations_lem c d annots a r h = ground (arith, h)

-- The same of the three upgrade annotations, which set the description, DisableHooks and Force.
pub upgrade_annotations_lem :
    (c d f : String) (annots : Dict String) (a : UpgradeAction) (r : AnnotationMaps)
    → with_upgrade_annotations
        (upgrade_description c ∷ upgrade_disable_hooks d ∷ upgrade_force f ∷ [])
        setup_annotation_maps
      ≡ ok r
    → apply_options (annotation_options r.upgrade_annotations annots) a
      ≡ ok (record a {
        description = text_of (upgrade_description c).name annots a.description;
        disable_hooks = flag_of (upgrade_disable_hooks d).name annots a.disable_hooks;
        force = flag_of (upgrade_force f).name annots a.force;
      })
unfolding with_upgrade_annotations register apply_options annotation_options upgrade_description
    upgrade_disable_hooks upgrade_force
upgrade_annotations_lem c d f annots a r h = ground (arith, h)
