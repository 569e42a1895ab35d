-- ===== src/Run/Started/Examples.antt =====
-- The run command at concrete data: the outside state counts the calls from one on, and is zero
-- once the manager has been started.
use helm_operator_plugins.Run.Command.{Runtime}
use helm_operator_plugins.Run.Data.{kit, clients, manager, entry}
use helm_operator_plugins.Watches.{WatchesLib}
use helm_operator_plugins.Reconciler.Settings.{Settings}
use helm_operator_plugins.Prelude.{ok, ℕ, ◌+◌, ◌≤◌, String, none, [], ◌∷◌}

abbrev loading : WatchesLib (Unit {0})
loading = record {
  Template = String;
  unmarshal = λ text. ok (entry ∷ []);
  load_chart = λ path. ok (record { name = path });
  expand_env = λ text. text;
  parse_template = λ name text. ok text;
  execute = λ text. ok text;
  empty_selector = tt;
}

abbrev runtime : Runtime kit clients ℕ
runtime = record {
  Handle = String;
  manager = λ m. manager;
  set_build_info = λ n s. s + n;
  must_register_build_info = λ s. (ok tt, s + 1);
  get_config = λ s. (ok "cfg", s + 1);
  lookup_env = λ key. none;
  new_manager = λ cfg options s. (ok cfg, s + 1);
  add_healthz_check = λ m name s. (ok tt, s + 1);
  add_readyz_check = λ m name s. (ok tt, s + 1);
  open_file = λ path s. ((ok (ok "entries"), none), s + 1);
  start = λ m s. (ok tt, 0);
}

abbrev IsStill : ℕ → Type 0
IsStill s = 1 ≤ s
