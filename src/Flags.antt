-- ===== src/Flags.antt =====
-- internal/flags/flag.go: the declaration of the flags of the command line, and the options of the
-- manager that they decide.
pub mod Declared
mod Examples
use helm_operator_plugins.Prelude.{
  if◌then◌else◌, Dict, ℤ, pos, ℕ, String, ◌<>◌, Bool, false, ◌||◌, not, Option, none, some, List,
  [], ◌∷◌, ◌++◌, ◌==◌,
}

pub record Flags : Type 0 where
  pub reconcile_period : ℤ
  pub watches_file : String
  pub metrics_bind_address : String
  pub leader_election : Bool
  pub leader_election_id : String
  pub leader_election_namespace : String
  pub max_concurrent_reconciles : ℤ
  pub probe_addr : String
  pub enable_http2 : Bool
  pub secure_metrics : Bool
  -- pflag.FlagSet.Changed; nil until AddTo
  pub flag_set : Option (String → Bool)

-- manager.Options, as far as it is set. A TLS option is known by the protocols that it leaves, a
-- webhook server by its TLS options, and the cache by the namespaces that it is restricted to.
pub record ManagerOptions : Type 0 where
  pub metrics_bind_address : String
  pub metrics_tls_opts : List (List String)
  pub metrics_secure_serving : Bool
  pub health_probe_bind_address : String
  pub leader_election : Bool
  pub leader_election_id : String
  pub leader_election_namespace : String
  pub leader_election_resource_lock : String
  pub webhook_server : Option (List (List String))
  pub default_namespaces : Option (Dict (Unit {0}))

-- The closure `changed`.
unfoldable pub changed : Flags → String → Bool
changed f name = elim f.flag_set [ none ↦ false | some is_changed ↦ is_changed name ]

abbrev pub disable_http2 : List String
disable_http2 = "http/1.1" ∷ []

unfoldable pub to_manager_options : Flags → ManagerOptions → ManagerOptions
unfolding changed
to_manager_options f options = record {
  metrics_bind_address =
      if changed f "metrics-bind-address"
        || changed f "metrics-addr"
        || options.metrics_bind_address == ""
      then f.metrics_bind_address
      else options.metrics_bind_address;
  health_probe_bind_address =
      if changed f "health-probe-bind-address" || options.health_probe_bind_address == ""
      then f.probe_addr
      else options.health_probe_bind_address;
  leader_election =
      if changed f "leader-elect"
        || changed f "enable-leader-election"
        || not options.leader_election
      then f.leader_election
      else options.leader_election;
  leader_election_id =
      if changed f "leader-election-id" || options.leader_election_id == ""
      then f.leader_election_id
      else options.leader_election_id;
  leader_election_namespace =
      if changed f "leader-election-namespace" || options.leader_election_namespace == ""
      then f.leader_election_namespace
      else options.leader_election_namespace;
  leader_election_resource_lock =
      if options.leader_election_resource_lock == ""
      then "leases"
      else options.leader_election_resource_lock;
  webhook_server = if f.enable_http2 then options.webhook_server else some (disable_http2 ∷ []);
  metrics_tls_opts =
      if f.enable_http2
      then options.metrics_tls_opts
      else options.metrics_tls_opts ++ (disable_http2 ∷ []);
  metrics_secure_serving = f.secure_metrics;
  default_namespaces = options.default_namespaces;
}

-- pflag.FlagSet: StringVar and the like, which declare a flag, MarkDeprecated, whose error is not
-- looked at, and Changed.
pub record FlagSetLib : Type 1 where
  pub FlagSet : Type 0
  pub string_var : String → String → String → FlagSet → FlagSet
  pub duration_var : String → ℤ → String → FlagSet → FlagSet
  pub int_var : String → ℤ → String → FlagSet → FlagSet
  pub bool_var : String → Bool → String → FlagSet → FlagSet
  pub mark_deprecated : String → String → FlagSet → FlagSet
  pub changed : FlagSet → String → Bool

-- time.Minute, in nanoseconds
abbrev pub minute : ℕ
minute = 60_000_000_000

abbrev pub election_usage : String
election_usage =
    "Enable leader election for controller manager. Enabling this will"
    <> " ensure there is only one active controller manager."

module _ (lib : FlagSetLib) where
  open lib use {FlagSet}

  -- The calls of AddTo, in order, on the set of flags.
  unfoldable pub declare_flags : ℕ → FlagSet → FlagSet
  declare_flags num_cpu flag_set =
      let watches =
        lib.string_var "watches-file" "./watches.yaml" "Path to the watches file to use" flag_set in
      let period =
        lib.duration_var "reconcile-period" (pos minute) "Default reconcile period for controllers"
          watches in
      let workers =
        lib.int_var "max-concurrent-reconciles" (pos num_cpu)
          "Maximum number of concurrent reconciles for controllers." period in
      let metrics_addr = lib.mark_deprecated "metrics-addr" "use --metrics-bind-address instead" (
        lib.string_var "metrics-addr" ":8080" "The address the metric endpoint binds to" workers) in
      let metrics =
        lib.string_var "metrics-bind-address" ":8080" "The address the metric endpoint binds to"
          metrics_addr in
      let probe =
        lib.string_var "health-probe-bind-address" ":8081"
          "The address the probe endpoint binds to." metrics in
      let enable_election =
        lib.mark_deprecated "enable-leader-election" "use --leader-elect instead."
          (lib.bool_var "enable-leader-election" false election_usage probe) in
      let elect = lib.bool_var "leader-elect" false election_usage enable_election in
      let election_id =
        lib.string_var "leader-election-id" ""
          "Name of the configmap that is used for holding the leader lock." elect in
      let election_namespace =
        lib.string_var "leader-election-namespace" ""
          ("Namespace in which to create the leader election configmap for"
            <> " holding the leader lock (required if running locally with leader"
            <> " election enabled).")
          election_id in
      let http2 =
        lib.bool_var "enable-http2" false "enables HTTP/2 on the webhook and metrics servers"
          election_namespace in
      lib.bool_var "metrics-secure" false "enables secure serving of the metrics endpoint" http2

  -- The set, and the flags with their default values. The flags keep a pointer to the set: `Changed`
  -- is asked of what the set is by then.
  unfoldable pub add_to : ℕ → FlagSet → FlagSet × Flags
  unfolding declare_flags
  add_to num_cpu flag_set =
      let declared = declare_flags num_cpu flag_set in
      (
        declared,
        record {
          reconcile_period = pos minute;
          watches_file = "./watches.yaml";
          metrics_bind_address = ":8080";
          leader_election = false;
          leader_election_id = "";
          leader_election_namespace = "";
          max_concurrent_reconciles = pos num_cpu;
          probe_addr = ":8081";
          enable_http2 = false;
          secure_metrics = false;
          flag_set = some (lib.changed declared);
        },
      )
