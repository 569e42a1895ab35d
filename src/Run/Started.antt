-- ===== src/Run/Started.antt =====
-- When the run command starts the manager.
mod Examples
use helm_operator_plugins.Run.Command.{Runtime}
use helm_operator_plugins.Flags.{Flags, ManagerOptions}
use helm_operator_plugins.Watches.{Watch, WatchesLib}
use helm_operator_plugins.Reconciler.Settings.{Kit, Settings}
use helm_operator_plugins.Reconciler.Setup.{Manager}
use helm_operator_plugins.Reconciler.Setup.Keeping.{Keeping, ManagerKeeps}
use helm_operator_plugins.Client.Config.{ConfigLib}
use helm_operator_plugins.SpecValues.{ParseInto}
use helm_operator_plugins.Exec.{pure, ◌>>=◌, ◌>>◌}
use helm_operator_plugins.Prelude.{Result, ok, err, ℕ, String, ◌≡◌, some, List, [], ◌∷◌}

-- The calls of the command before it starts the manager keep the predicate.
pub record BeforeStart {kit : Kit} {conf : ConfigLib} {S : Type 0} (rt : Runtime kit conf S)
    (P : S → Type 0) : Type 0 where
  pub build_info : (n : ℕ) (s : S) → P s → P (rt.set_build_info n s)
  pub registered : Keeping P rt.must_register_build_info
  pub configured : Keeping P rt.get_config
  pub created :
      (cfg : conf.RestConfig) (options : ManagerOptions) → Keeping P (rt.new_manager cfg options)
  pub healthz : (m : rt.Handle) (name : String) → Keeping P (rt.add_healthz_check m name)
  pub readyz : (m : rt.Handle) (name : String) → Keeping P (rt.add_readyz_check m name)
  pub opened : (path : String) (s : S) → P s → P (rt.open_file path s).1
  pub managed : (m : rt.Handle) → ManagerKeeps (rt.manager m) P

module _ {kit : Kit} {conf : ConfigLib} {S : Type 0} (rt : Runtime kit conf S)
    (lib : WatchesLib kit.LabelSelector) (expand_env : String → String) (parse_into : ParseInto)
    (P : S → Type 0) (keeps : BeforeStart rt P) where
  -- The command from the answer of manager.New to the loading of the watches.
  abbrev made_manager : Result rt.Handle × S → Result rt.Handle × S
  made_manager (made, s) =
      ((λ _. (made, s)) >>= λ m.
      rt.add_healthz_check m "healthz" >> rt.add_readyz_check m "readyz" >> pure m)
        s

  -- A reconciler that is set up for an entry of the watches file: of its kind, with its chart.
  abbrev pub IsFor : Watch kit.LabelSelector → Settings kit S → Type 0
  IsFor w r = (r.gvk ≡ some w.gvk) × (r.chrt ≡ w.chart)

  abbrev pub AllFor : List (Watch kit.LabelSelector) → List (Settings kit S) → Type 0
  AllFor [] [] = Unit
  AllFor [] (r ∷ rs) = ⊥
  AllFor (w ∷ ws) [] = ⊥
  AllFor (w ∷ ws) (r ∷ rs) = IsFor w r × AllFor ws rs

  module _ (mgr : Manager kit conf S) (managed : ManagerKeeps mgr P) (f : Flags) where
    -- The loop keeps the predicate, and if it ends well there is a reconciler for each entry.
    abbrev AreSetUp : List (Watch kit.LabelSelector) → Result (List (Settings kit S)) × S → Type 0
    AreSetUp ws (ok rs, t) = AllFor ws rs × P t
    AreSetUp ws (err e, t) = P t
