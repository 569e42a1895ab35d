-- ===== src/Annotation/Examples.antt =====
-- Tests, and the theorems at concrete annotations.
use helm_operator_plugins.Annotation.{
  parse_bool, install_disable_hooks, upgrade_disable_hooks, upgrade_force, install_description,
  upgrade_description, default_upgrade_annotations, AnnotationMaps, setup_annotation_maps, register,
  with_install_annotations, with_upgrade_annotations,
}
use helm_operator_plugins.Annotation.Registered.{install_annotations_lem}
use helm_operator_plugins.Client.{apply_options}
use helm_operator_plugins.Client.Options.{InstallAction, UpgradeAction}
use helm_operator_plugins.Reconciler.{annotation_options}
use helm_operator_plugins.Prelude.{
  Dict, message, ok, err, String, ◌≡◌, refl, true, false, none, some, [], ◌∷◌,
}

parse_bool_tests :
    (parse_bool "T" ≡ some true) × (parse_bool "False" ≡ some false) × (parse_bool "yes" ≡ none)
unfolding parse_bool
parse_bool_tests = (refl, refl, refl)

abbrev some_install : InstallAction
some_install = record {
  release_name = "web";
  namespace = "default";
  disable_hooks = true;
  description = "";
  post_renderer = none;
}

abbrev some_upgrade : UpgradeAction
some_upgrade = record {
  namespace = "default";
  max_history = 10;
  dry_run = false;
  dry_run_option = "";
  force = true;
  disable_hooks = false;
  description = "old";
  post_renderer = none;
}

abbrev asked : Dict String
asked =
    ("helm.sdk.operatorframework.io/install-disable-hooks", "no")
    ∷ ("helm.sdk.operatorframework.io/upgrade-force", "false")
    ∷ ("example.com/description", "first")
    ∷ []

abbrev installing : AnnotationMaps
installing = record setup_annotation_maps {
  annotations =
      ("example.com/description", tt)
      ∷ ("helm.sdk.operatorframework.io/install-disable-hooks", tt)
      ∷ [];
  install_annotations =
      ("example.com/description", (install_description "").option)
      ∷ ("helm.sdk.operatorframework.io/install-disable-hooks", (install_disable_hooks "").option)
      ∷ [];
}

installing_made :
    with_install_annotations
      (install_description "example.com/description" ∷ install_disable_hooks "" ∷ [])
      setup_annotation_maps
    ≡ ok installing
unfolding with_install_annotations register install_description install_disable_hooks
installing_made = refl

abbrev upgrading : AnnotationMaps
upgrading = record setup_annotation_maps {
  annotations =
      ("helm.sdk.operatorframework.io/upgrade-description", tt)
      ∷ ("helm.sdk.operatorframework.io/upgrade-disable-hooks", tt)
      ∷ ("helm.sdk.operatorframework.io/upgrade-force", tt)
      ∷ [];
  upgrade_annotations =
      ("helm.sdk.operatorframework.io/upgrade-description", (upgrade_description "").option)
      ∷ ("helm.sdk.operatorframework.io/upgrade-disable-hooks", (upgrade_disable_hooks "").option)
      ∷ ("helm.sdk.operatorframework.io/upgrade-force", (upgrade_force "").option)
      ∷ [];
}

upgrading_made :
    with_upgrade_annotations default_upgrade_annotations setup_annotation_maps ≡ ok upgrading
unfolding with_upgrade_annotations register upgrade_description upgrade_disable_hooks upgrade_force
upgrading_made = refl

install_annotations_lem_example :
    apply_options (annotation_options installing.install_annotations asked) some_install
    ≡ ok (record some_install { description = "first"; disable_hooks = false })
unfolding install_description install_disable_hooks parse_bool
install_annotations_lem_example =
    install_annotations_lem "example.com/description" "" asked some_install installing
      installing_made

taken_test :
    with_upgrade_annotations
      (upgrade_force "x" ∷ upgrade_disable_hooks "x" ∷ [])
      setup_annotation_maps
    ≡ err (message "annotation already exists")
unfolding with_upgrade_annotations register upgrade_disable_hooks upgrade_force
taken_test = refl
