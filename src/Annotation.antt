-- ===== src/Annotation.antt =====
-- pkg/annotation/annotation.go: options for helm's actions that a custom resource asks for by an
-- annotation, and the options of pkg/reconciler/reconciler.go that register them.
pub mod Registered
mod Examples
use helm_operator_plugins.Client.{UninstallAction, OptionFor}
use helm_operator_plugins.Client.Options.{InstallAction, UpgradeAction}
use helm_operator_plugins.Reconciler.{Annotation}
use helm_operator_plugins.Prelude.{
  if◌then◌else◌, is_some, Dict, lookup, insert, message, Result, ok, err, String, Bool, true, false,
  ◌||◌, Option, none, some, List, [], ◌∷◌, ◌==◌,
}

-- annotation.Install, annotation.Upgrade and annotation.Uninstall
pub record Named (A : Type 0) : Type 0 where
  pub name : String
  pub option : Annotation A

-- strconv.ParseBool
unfoldable pub parse_bool : String → Option Bool
parse_bool s =
    if s == "1" || s == "t" || s == "T" || s == "TRUE" || s == "true" || s == "True"
    then some true
    else if s == "0" || s == "f" || s == "F" || s == "FALSE" || s == "false" || s == "False"
    then some false
    else none

-- What the annotations with a Boolean value make of it.
abbrev pub flag : String → Bool
flag val = elim (parse_bool val) [ none ↦ false | some v ↦ v ]

abbrev pub or_default : String → String → String
or_default custom_name default_name = if custom_name == "" then default_name else custom_name

-- The seven structs have one field, the custom name, which the methods are given.
unfoldable pub install_disable_hooks : String → Named InstallAction
install_disable_hooks custom_name = record {
  name = or_default custom_name "helm.sdk.operatorframework.io/install-disable-hooks";
  option = λ val a. ok (record a { disable_hooks = flag val });
}

unfoldable pub upgrade_disable_hooks : String → Named UpgradeAction
upgrade_disable_hooks custom_name = record {
  name = or_default custom_name "helm.sdk.operatorframework.io/upgrade-disable-hooks";
  option = λ val a. ok (record a { disable_hooks = flag val });
}

unfoldable pub upgrade_force : String → Named UpgradeAction
upgrade_force custom_name = record {
  name = or_default custom_name "helm.sdk.operatorframework.io/upgrade-force";
  option = λ val a. ok (record a { force = flag val });
}

unfoldable pub uninstall_disable_hooks : String → Named UninstallAction
uninstall_disable_hooks custom_name = record {
  name = or_default custom_name "helm.sdk.operatorframework.io/uninstall-disable-hooks";
  option = λ val a. ok (record a { disable_hooks = flag val });
}

unfoldable pub install_description : String → Named InstallAction
install_description custom_name = record {
  name = or_default custom_name "helm.sdk.operatorframework.io/install-description";
  option = λ val a. ok (record a { description = val });
}

unfoldable pub upgrade_description : String → Named UpgradeAction
upgrade_description custom_name = record {
  name = or_default custom_name "helm.sdk.operatorframework.io/upgrade-description";
  option = λ val a. ok (record a { description = val });
}

unfoldable pub uninstall_description : String → Named UninstallAction
uninstall_description custom_name = record {
  name = or_default custom_name "helm.sdk.operatorframework.io/uninstall-description";
  option = λ val a. ok (record a { description = val });
}

abbrev pub default_install_annotations : List (Named InstallAction)
default_install_annotations = install_description "" ∷ install_disable_hooks "" ∷ []

abbrev pub default_upgrade_annotations : List (Named UpgradeAction)
default_upgrade_annotations =
    upgrade_description "" ∷ upgrade_disable_hooks "" ∷ upgrade_force "" ∷ []

abbrev pub default_uninstall_annotations : List (Named UninstallAction)
default_uninstall_annotations = uninstall_description "" ∷ uninstall_disable_hooks "" ∷ []

-- The reconciler's fields for annotations.
pub record AnnotationMaps : Type 0 where
  pub annotations : Dict (Unit {0})
  pub install_annotations : Dict (Annotation InstallAction)
  pub upgrade_annotations : Dict (Annotation UpgradeAction)
  pub uninstall_annotations : Dict (Annotation UninstallAction)

abbrev pub setup_annotation_maps : AnnotationMaps
setup_annotation_maps = record {
  annotations = [];
  install_annotations = [];
  upgrade_annotations = [];
  uninstall_annotations = [];
}

-- The loop that the three options have; setupAnnotationMaps has run before, from New.
unfoldable pub register :
    {A : Type 0}
    → List (Named A)
    → Dict (Unit {0})
    → Dict (Annotation A)
    → Result (Dict (Unit {0}) × Dict (Annotation A))
register [] names known = ok (names, known)
register (a ∷ given) names known =
    if is_some (lookup a.name names)
    then err (message "annotation already exists")
    else register given (insert a.name tt names) (insert a.name a.option known)

unfoldable pub with_install_annotations : List (Named InstallAction) → OptionFor AnnotationMaps
unfolding register
with_install_annotations given r = elim (register given r.annotations r.install_annotations) [
  | err e ↦ err e
  | ok (names, known) ↦ ok (record r { annotations = names; install_annotations = known })
]

unfoldable pub with_upgrade_annotations : List (Named UpgradeAction) → OptionFor AnnotationMaps
unfolding register
with_upgrade_annotations given r = elim (register given r.annotations r.upgrade_annotations) [
  | err e ↦ err e
  | ok (names, known) ↦ ok (record r { annotations = names; upgrade_annotations = known })
]

unfoldable pub with_uninstall_annotations : List (Named UninstallAction) → OptionFor AnnotationMaps
unfolding register
with_uninstall_annotations given r = elim (register given r.annotations r.uninstall_annotations) [
  | err e ↦ err e
  | ok (names, known) ↦ ok (record r { annotations = names; uninstall_annotations = known })
]
