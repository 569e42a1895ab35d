-- ===== src/Cluster.antt =====
-- What the reconciler uses of controller-runtime, client-go and apimachinery.
use helm_operator_plugins.Object.{Fields, HelmAppStatus, Unstructured}
use helm_operator_plugins.Exec.{Exec}
use helm_operator_plugins.Prelude.{Error, Result, String, Bool, List}

pub record Cluster : Type 1 where
  pub State : Type 0
  -- client.Client: Get by namespace and name, Update, and Status().Update; the last two leave the
  -- server's answer in the object.
  pub get : String → String → Exec State Unstructured
  pub update : Unstructured → Exec State Unstructured
  pub update_status : Unstructured → Exec State Unstructured
  -- retry.OnError with retry.DefaultRetry
  pub retry : (Error → Bool) → Exec State Unstructured → Exec State Unstructured
  -- wait.PollUntilContextCancel, every 10ms and at once, under a context that ends by itself; the
  -- condition may change the object that it polls for
  pub poll :
      (Unstructured → State → (Result Bool × Unstructured) × State)
      → Unstructured
      → State
      → (Result (Unit {0}) × Unstructured) × State
  -- runtime.DefaultUnstructuredConverter; `from_unstructured` is what is there after the errors
  -- that the program ignores.
  pub to_unstructured : HelmAppStatus → Result Fields
  pub from_unstructured : Fields → HelmAppStatus
  -- controllerutil.RemoveFinalizer of controller-runtime, on the list of finalizers
  pub remove_finalizer : List String → String → List String
