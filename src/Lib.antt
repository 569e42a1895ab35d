-- ===== src/Lib.antt =====
-- Verification of helm-operator-plugins, the library for operators that install a helm chart for
-- each custom resource.
--
-- The reconciler is called with the name of a custom resource. It makes sure that the resource
-- has the uninstall finalizer, asks for an action client, compares the release that helm has
-- stored with the one that the chart and the values would give, and installs, upgrades, reconciles
-- or uninstalls it. What it learns is collected by an updater and written to the resource at the
-- end, the status before the object. The action client wraps helm's actions, with a clean-up when
-- they fail; helm stores a release through a driver, here the one that spreads it over secrets.
--
-- Which file models what (paths from the root of the repository):
--   * Prelude and its children: lists and numbers, maps as association lists, and the errors that
--     the program distinguishes: errors.Is and errors.As look through the wrapped causes. Exec is
--     the monad of code that calls an API and may fail; Release is helm's release.
--   * Status: pkg/internal/status/conditions.go. Conditions is a list in the order of the source;
--     the current time is an argument.
--   * Conditions: pkg/reconciler/internal/conditions/conditions.go.
--   * Storage: pkg/storage/chunked.go and pkg/storage/labels.go. Hash and Labels are the helpers,
--     Chunks the encoding, Driver the operations. The Kubernetes API is the record
--     SecretInterface; Api states what a healthy API does, and Memory is one that does it. gzip,
--     JSON and the gzip reader are the record Codec. Driver/Store is the map from keys to releases
--     that the driver stands for, and when the secrets of a state are those of a map.
--   * Updater: pkg/reconciler/internal/updater/updater.go, over the API of Cluster.
--   * Controllerutil: internal/sdk/controllerutil/controllerutil.go.
--   * Client: pkg/client. Options and PostRenderer are postrenderer.go, with PostRenderer/Owner
--     for the renderer that marks resources for their owner; Patch, Actions and Getter are
--     actionclient.go (helm is the record Helm), OwnerRef is ownerrefclient.go, and Config is
--     actionconfig.go with restclientgetter.go.
--   * SpecValues: pkg/reconciler/internal/values/values.go.
--   * Reconciler: pkg/reconciler/reconciler.go. Settings has New and its options, where a field
--     may be unset, and Setup has SetupWithManager over a record Manager; Reconciler is the record
--     that Reconcile reads. Actions has the operations on the release, Loop has Reconcile, one
--     function for each stretch between its returns; the deferred Apply is finish. Lifecycle has
--     the steps in the life of a resource, runs of Reconcile among them, and what is seen of its
--     finalizers and its release, with Lifecycle/Tracking for what the action client adds to that.
--   * Fake: pkg/reconciler/internal/fake/actionclient.go, an action client that records its calls.
--   * Annotation: pkg/annotation/annotation.go, and the options of
--     pkg/reconciler/reconciler.go that register annotations.
--   * Hook: pkg/reconciler/internal/hook/hook.go; Manifestutil:
--     pkg/manifestutil/resourcepolicykeep.go.
--   * Watches: pkg/watches/watches.go. Namespaces: pkg/manager/namespace.go. Flags:
--     internal/flags/flag.go. Run: internal/cmd/helm-operator/run/cmd.go, which makes a reconciler
--     of each entry of the watches file; Run/Command has the command as a whole, with the gauge
--     of internal/metrics/metrics.go. Predicates: pkg/internal/predicate/predicates.go. Diff:
--     pkg/reconciler/internal/diff/diff.go. The functions of pkg/hook/hook.go and
--     pkg/values/values.go are types in Reconciler and SpecValues.
--   * The Examples files have the tests, and the theorems at concrete inputs; the Data files beside
--     them have what these share.
--
-- Conventions. A pointer to a struct is an Option; a map is an association list whose first entry
-- for a key counts. A mutable object is passed on and returned. A method that needs the API takes
-- the record of its calls and the state that these change. Lengths and times are natural numbers,
-- and a number that an option may reject for its sign is an integer; the code modelled here has
-- no arithmetic that could overflow. Two loops have fuel: the cutting of a release into chunks
-- takes the number of its bytes, as each round takes at least one where the chunk size is
-- positive, and the decimal digits of a number n take n + 1.
--
-- Not modelled: log messages, events, printed differences and the exact arguments in error texts;
-- the reading of the clock, which is one argument for each Apply and Reconcile; the waiting
-- between retries and polls, which the Cluster record does. A pause handler leaves the object as
-- it is. Helm, the patch libraries, YAML, JSON, gzip, Prometheus, cobra, controller-runtime and
-- Kubernetes are parameters. The root command, the text of the version and the support for the
-- repository's tests are not modelled.
pub mod Prelude
pub mod Exec
pub mod Release
pub mod Status
pub mod Storage
pub mod Object
pub mod Conditions
pub mod Cluster
pub mod Controllerutil
pub mod Updater
pub mod Client
pub mod SpecValues
pub mod Reconciler
pub mod Annotation
pub mod Hook
pub mod Manifestutil
pub mod Watches
pub mod Fake
pub mod Flags
pub mod Namespaces
pub mod Predicates
pub mod Diff
pub mod Run
