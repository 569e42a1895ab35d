-- ===== src/Storage/Memory.antt =====
-- A secrets API in memory, which is healthy: a table of secrets and the names ever created.
use helm_operator_plugins.Storage.{Secret, SecretInterface}
use helm_operator_plugins.Storage.Api.{all_match, surviving, HealthyApi}
use helm_operator_plugins.Prelude.{
  if◌then◌else◌, Dict, not_found, already_exists, Error, ok, err, String, ◌<>◌, refl, Option, none,
  some, List, [], ◌∷◌, ◌==◌,
}

pub record Memory : Type 0 where
  pub table : String → Option Secret
  pub created : List String

abbrev pub nothing : Memory
nothing = record { table = λ n. none; created = [] }

abbrev put : Secret → Memory → Memory
put x m = record m { table = λ n. if x.name == n then some x else m.table n }

abbrev numbered : Secret → Secret
numbered x = record x { uid = "uid-" <> x.name }

abbrev collect : (String → Option Secret) → Dict String → List String → List Secret
collect table sel [] = []
collect table sel (n ∷ ns) = elim (table n) [
  | none ↦ collect table sel ns
  | some x ↦ if all_match sel x.labels then x ∷ collect table sel ns else collect table sel ns
]

abbrev pub memory_api : SecretInterface
memory_api = record {
  State = Memory;
  create = λ x m. elim (m.table x.name) [
    | some y ↦ (err (Error.api already_exists), m)
    | none ↦ (ok (numbered x), record (put (numbered x) m) { created = x.name ∷ m.created })
  ];
  get = λ n m. elim (m.table n) [ some y ↦ (ok y, m) | none ↦ (err (Error.api not_found), m) ];
  update = λ x m. elim (m.table x.name) [
    | some y ↦ (ok x, put x m)
    | none ↦ (err (Error.api not_found), m)
  ];
  delete_collection = λ sel m. (ok tt, record m { table = λ n. surviving sel (m.table n) });
  list = λ sel m. (ok (collect m.table sel m.created), m);
}

abbrev pub memory_healthy : HealthyApi memory_api
memory_healthy = record {
  find = λ m n. m.table n;
  get_missing = λ n m e. rw e;
  get_found = λ n m x e. rw e;
  create_taken = λ x y m e. rw e;
  create_free = λ x m e. (
    numbered x,
    record (put (numbered x) m) { created = x.name ∷ m.created },
    rw e,
    refl,
    λ n. refl,
  );
  update_found = λ x y m e. (x, put x m, rw e, refl, λ n. refl);
  deleted = λ sel m. (record m { table = λ n. surviving sel (m.table n) }, refl, λ n. refl);
}
