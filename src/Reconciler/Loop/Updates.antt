-- ===== src/Reconciler/Loop/Updates.antt =====
-- The status updates that Reconcile collects before each of its returns.
use helm_operator_plugins.Updater.{
  UpdateStatusFunc, ensure_condition, ensure_condition_unknown, ensure_deployed_release,
}
use helm_operator_plugins.Conditions.{
  type_initialized, type_deployed, type_release_failed, type_irreconcilable,
  reason_pause_reconcile_annotation_true, reason_error_getting_client, reason_error_getting_values,
  reason_error_getting_release_state, release_failed, irreconcilable, paused,
}
use helm_operator_plugins.Status.{condition_true, condition_false}
use helm_operator_plugins.Prelude.{String, none, List, [], ◌∷◌}

abbrev pub paused_updates : List UpdateStatusFunc
paused_updates =
    ensure_condition (paused condition_true reason_pause_reconcile_annotation_true "")
    ∷ ensure_condition_unknown type_irreconcilable
    ∷ ensure_condition_unknown type_deployed
    ∷ ensure_condition_unknown type_initialized
    ∷ ensure_condition_unknown type_release_failed
    ∷ ensure_deployed_release none
    ∷ []

abbrev pub no_client_updates : String → List UpdateStatusFunc
no_client_updates reason =
    ensure_condition (irreconcilable condition_true reason_error_getting_client reason)
    ∷ ensure_condition_unknown type_deployed
    ∷ ensure_condition_unknown type_initialized
    ∷ ensure_condition_unknown type_release_failed
    ∷ ensure_deployed_release none
    ∷ []

abbrev pub no_values_updates : String → List UpdateStatusFunc
no_values_updates reason =
    ensure_condition (irreconcilable condition_true reason_error_getting_values reason)
    ∷ ensure_condition_unknown type_release_failed
    ∷ []

abbrev pub no_state_updates : String → List UpdateStatusFunc
no_state_updates reason =
    ensure_condition (irreconcilable condition_true reason_error_getting_release_state reason)
    ∷ ensure_condition_unknown type_release_failed
    ∷ ensure_condition_unknown type_deployed
    ∷ ensure_deployed_release none
    ∷ []

abbrev pub reconciled_updates : List UpdateStatusFunc
reconciled_updates =
    ensure_condition (release_failed condition_false "" "")
    ∷ ensure_condition (irreconcilable condition_false "" "")
    ∷ []
