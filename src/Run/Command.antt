-- ===== src/Run/Command.antt =====
-- The whole run command (internal/cmd/helm-operator/run/cmd.go), with the gauge of
-- internal/metrics. An error that ends it is an exit of the process with that error in the log.
use helm_operator_plugins.Run.{no_options, manager_options, run_watches}
use helm_operator_plugins.Flags.{Flags, ManagerOptions, FlagSetLib, add_to}
use helm_operator_plugins.Watches.{Watch, WatchesLib, load}
use helm_operator_plugins.Reconciler.Settings.{Kit}
use helm_operator_plugins.Reconciler.Setup.{Manager}
use helm_operator_plugins.Client.Config.{ConfigLib}
use helm_operator_plugins.SpecValues.{ParseInto}
use helm_operator_plugins.Exec.{Exec, pure, lift, ◌>>=◌, ◌>>◌}
use helm_operator_plugins.Prelude.{
  Error, message, Result, ok, err, ℕ, String, Option, none, some, List,
}

-- controller-runtime, the registry of Prometheus and the operating system, as the command uses
-- them. A manager is known by a handle; what its methods do is the record of SetupWithManager.
pub record Runtime (kit : Kit) (conf : ConfigLib) (S : Type 0) : Type 1 where
  pub Handle : Type 0
  pub manager : Handle → Manager kit conf S
  pub set_build_info : ℕ → S → S
  pub must_register_build_info : Exec S (Unit {0})
  pub get_config : Exec S conf.RestConfig
  pub lookup_env : String → Option String
  pub new_manager : conf.RestConfig → ManagerOptions → Exec S Handle
  pub add_healthz_check : Handle → String → Exec S (Unit {0})
  pub add_readyz_check : Handle → String → Exec S (Unit {0})
  -- os.Open with the content that is read of it, and what Close answers
  pub open_file : String → S → (Result (Result String) × Option Error) × S
  pub start : Handle → Exec S (Unit {0})

-- Webhook servers have no support, whatever they are set to.
unfoldable pub exit_if_unsupported : ManagerOptions → Result (Unit {0})
exit_if_unsupported options = elim options.webhook_server [
  | none ↦ ok tt
  | some server ↦ err (message "options for setting webhook server configuration is not supported.")
]

module _ {kit : Kit} {conf : ConfigLib} {S : Type 0} (rt : Runtime kit conf S)
    (lib : WatchesLib kit.LabelSelector) (expand_env : String → String)
    (parse_into : ParseInto) where
  unfoldable pub register_build_info : Exec S (Unit {0})
  register_build_info s = rt.must_register_build_info (rt.set_build_info 1 s)

  -- os.Getenv
  abbrev pub getenv : String → String
  getenv key = elim (rt.lookup_env key) [ none ↦ "" | some value ↦ value ]

  -- watches.Load
  unfoldable pub load_file : String → Exec S (List (Watch kit.LabelSelector))
  unfolding load
  load_file path s = let ((opened, closed), t) = rt.open_file path s in (load lib opened closed, t)

  -- Until the manager is there, with its health checks.
  unfoldable pub make_manager : Flags → Exec S rt.Handle
  unfolding exit_if_unsupported register_build_info manager_options
  make_manager f = do
    register_build_info
    lift (exit_if_unsupported no_options)
    cfg ← rt.get_config
    options ← lift (manager_options f (rt.lookup_env "OPERATOR_NAME") (getenv "WATCH_NAMESPACE"))
    mgr ← rt.new_manager cfg options
    rt.add_healthz_check mgr "healthz"
    rt.add_readyz_check mgr "readyz"
    pure mgr

  unfoldable pub run : Flags → Exec S (Unit {0})
  unfolding make_manager load_file run_watches
  run f = do
    mgr ← make_manager f
    ws ← load_file f.watches_file
    run_watches kit S expand_env parse_into (rt.manager mgr) f ws
    rt.start mgr

  -- What NewCmd makes: the set of flags, the flags as they are before the command line is read, and
  -- what is run with them. cobra and the flags of zap are the library's.
  pub record Command (flags : FlagSetLib) : Type 0 where
    pub use_line : String
    pub short : String
    pub flag_set : flags.FlagSet
    pub defaults : Flags
    pub run_with : Flags → Exec S (Unit {0})

  -- `add_zap_flags` is AddGoFlagSet with the flags of zap, `set_logger` the call of SetLogger.
  unfoldable pub new_cmd :
      (flags : FlagSetLib)
      → (flags.FlagSet → flags.FlagSet)
      → (S → S)
      → ℕ
      → flags.FlagSet
      → Command flags
  unfolding add_to run
  new_cmd flags add_zap_flags set_logger num_cpu empty_set =
      let (declared, f) = add_to flags num_cpu empty_set in
      record {
        use_line = "run";
        short = "Run the operator";
        flag_set = add_zap_flags declared;
        defaults = record f { flag_set = some (flags.changed (add_zap_flags declared)) };
        run_with = λ g s. run g (set_logger s);
      }
