-- ===== src/Watches/Examples.antt =====
-- Tests, and the theorem at a file with one entry.
use helm_operator_plugins.Watches.{Watch, WatchesLib, load_watches, load}
use helm_operator_plugins.Watches.Loaded.{AllLoaded, FreshKinds, load-AllLoaded}
use helm_operator_plugins.Prelude.{
  message, wrap, ok, err, String, ◌≡◌, refl, true, none, some, [], ◌∷◌,
}

abbrev files : WatchesLib (Unit {0})
files = record {
  Template = String;
  unmarshal = λ b. ok (
      record {
        gvk = record { group = "g"; version = "v1"; kind = b };
        chart_path = "charts/web";
        watch_dependent_resources = none;
        override_values = some (("a", "1") ∷ []);
        reconcile_period = none;
        max_concurrent_reconciles = none;
        selector = none;
        chart = none;
      }
      ∷ []);
  load_chart = λ path. ok (record { name = path });
  expand_env = λ v. v;
  parse_template = λ k v. ok v;
  execute = λ v. ok v;
  empty_selector = tt;
}

abbrev entry : Watch (Unit {0})
entry = record {
  gvk = record { group = "g"; version = "v1"; kind = "Web" };
  chart_path = "charts/web";
  watch_dependent_resources = none;
  override_values = some (("a", "1") ∷ []);
  reconcile_period = none;
  max_concurrent_reconciles = none;
  selector = none;
  chart = none;
}

abbrev loaded_entry : Watch (Unit {0})
loaded_entry = record entry {
  watch_dependent_resources = some true;
  selector = some tt;
  chart = some (record { name = "charts/web" });
}

loads : load files (ok (ok "Web")) none ≡ ok (loaded_entry ∷ [])
unfolding load
loads = refl

no_kind : load files (ok (ok "")) none ≡ err (wrap "invalid GVK" (message "kind must not be empty"))
unfolding load
no_kind = refl

duplicate : load_watches files [] (entry ∷ entry ∷ []) ≡ err (message "duplicate GVK")
unfolding load_watches
duplicate = refl

load-AllLoaded_example :
    AllLoaded files (entry ∷ []) (loaded_entry ∷ []) × FreshKinds files [] (loaded_entry ∷ [])
load-AllLoaded_example = load-AllLoaded files (entry ∷ []) (loaded_entry ∷ []) "Web" refl loads
