-- ===== src/Conditions.antt =====
-- pkg/reconciler/internal/conditions/conditions.go. A message is the text that `%s` prints.
use helm_operator_plugins.Status.{Condition}
use helm_operator_plugins.Prelude.{String}

abbrev pub type_initialized : String
type_initialized = "Initialized"

abbrev pub type_deployed : String
type_deployed = "Deployed"

abbrev pub type_release_failed : String
type_release_failed = "ReleaseFailed"

abbrev pub type_irreconcilable : String
type_irreconcilable = "Irreconcilable"

abbrev pub type_paused : String
type_paused = "Paused"

abbrev pub reason_install_successful : String
reason_install_successful = "InstallSuccessful"

abbrev pub reason_upgrade_successful : String
reason_upgrade_successful = "UpgradeSuccessful"

abbrev pub reason_uninstall_successful : String
reason_uninstall_successful = "UninstallSuccessful"

abbrev pub reason_pause_reconcile_annotation_true : String
reason_pause_reconcile_annotation_true = "PauseReconcileAnnotationTrue"

abbrev pub reason_error_getting_client : String
reason_error_getting_client = "ErrorGettingClient"

abbrev pub reason_error_getting_values : String
reason_error_getting_values = "ErrorGettingValues"

abbrev pub reason_error_getting_release_state : String
reason_error_getting_release_state = "ErrorGettingReleaseState"

abbrev pub reason_install_error : String
reason_install_error = "InstallError"

abbrev pub reason_upgrade_error : String
reason_upgrade_error = "UpgradeError"

abbrev pub reason_reconcile_error : String
reason_reconcile_error = "ReconcileError"

abbrev pub reason_uninstall_error : String
reason_uninstall_error = "UninstallError"

-- The zero time stands until SetCondition stamps the condition.
unfoldable pub new_condition : String → String → String → String → Condition
new_condition t s r m = record {
  type = t;
  status = s;
  reason = r;
  message = m;
  last_transition_time = 0;
}

unfoldable pub initialized : String → String → String → Condition
unfolding new_condition
initialized stat reason text = new_condition type_initialized stat reason text

unfoldable pub deployed : String → String → String → Condition
unfolding new_condition
deployed stat reason text = new_condition type_deployed stat reason text

unfoldable pub release_failed : String → String → String → Condition
unfolding new_condition
release_failed stat reason text = new_condition type_release_failed stat reason text

unfoldable pub irreconcilable : String → String → String → Condition
unfolding new_condition
irreconcilable stat reason text = new_condition type_irreconcilable stat reason text

unfoldable pub paused : String → String → String → Condition
unfolding new_condition
paused stat reason text = new_condition type_paused stat reason text
