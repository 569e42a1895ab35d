-- ===== src/Flags/Examples.antt =====
-- The flags at concrete command lines, one of which has a flag that is not of this program.
use helm_operator_plugins.Flags.{Flags, declare_flags, add_to}
use helm_operator_plugins.Flags.Declared.{recorder, with_changed, manager_options-declared}
use helm_operator_plugins.Run.{manager_options}
use helm_operator_plugins.Prelude.{All, pos, String, ◌≡◌, refl, Bool, ◌||◌, some, [], ◌==◌}

abbrev defaults : Flags
defaults = (add_to recorder 4 []).1

eight_workers : (add_to recorder 8 []).1.max_concurrent_reconciles ≡ pos 8
unfolding add_to
eight_workers = refl

abbrev elected : String → Bool
elected name = name == "leader-elect"

abbrev verbose : String → Bool
verbose name = name == "leader-elect" || name == "zap-log-level"

agreeing : All (λ name. elected name ≡ verbose name) (declare_flags recorder 4 [])
unfolding declare_flags
agreeing = (
  refl,
  (refl, (refl, (refl, (refl, (refl, (refl, (refl, (refl, (refl, (refl, (refl, tt))))))))))),
)

manager_options-declared_example :
    manager_options (with_changed defaults elected) (some "op") "a,b"
    ≡ manager_options (with_changed defaults verbose) (some "op") "a,b"
manager_options-declared_example =
    manager_options-declared defaults elected verbose 4 (some "op") "a,b" agreeing
