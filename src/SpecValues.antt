-- ===== src/SpecValues.antt =====
-- pkg/reconciler/internal/values/values.go: the chart values in the spec of a custom resource.
use helm_operator_plugins.Object.{object, Fields, Values, Unstructured}
use helm_operator_plugins.Prelude.{
  Dict, Error, message, Result, ok, err, ℕ, String, ◌<>◌, Option, none, some, [], ◌∷◌,
}

-- in nanoseconds
abbrev pub default_wait_for_deletion_timeout : ℕ
default_wait_for_deletion_timeout = 30_000_000_000

abbrev pub default_max_release_history : ℕ
default_max_release_history = 10

-- values.Mapper and values.Translator of pkg/values; the function types and their adapters are
-- the functions themselves.
abbrev pub Mapper : Type 0
Mapper = Values → Values

abbrev pub Translator : Type 0
Translator = Unstructured → Result Values

unfoldable pub default_mapper : Mapper
default_mapper v = v

-- A spec that is a map is shared with the object: who changes it changes the object.
unfoldable pub get_spec_map : Option Unstructured → Result Fields
get_spec_map none = err (message "nil object")
get_spec_map (some obj) = elim obj.spec [
  | none ↦ err (message "spec not found")
  | some (object m) ↦ ok m
  | some other_value ↦ err (message "spec must be a map")
]

unfoldable pub default_translator : Translator
unfolding get_spec_map
default_translator obj = get_spec_map (some obj)

-- strvals.ParseInto, which may have changed the map when it fails
abbrev pub ParseInto : Type 0
ParseInto = String → Fields → Option Error × Fields

module _ (expand_env : String → String) (parse_into : ParseInto) where
  -- The loop over the overrides, up to the first that does not parse.
  unfoldable pub override_all : Dict String → Fields → Option Error × Fields
  override_all [] m = (none, m)
  override_all ((k, v) ∷ overrides) m =
      let (failure, changed) = parse_into (k <> "=" <> expand_env v) m in
      elim failure [ some e ↦ (some e, changed) | none ↦ override_all overrides changed ]

  unfoldable pub apply_overrides : Dict String → Unstructured → Option Error × Unstructured
  unfolding override_all get_spec_map
  apply_overrides overrides obj = elim (get_spec_map (some obj)) [
    | err e ↦ (some e, obj)
    | ok m ↦
        let (failure, changed) = override_all overrides m in
        (failure, record obj { spec = some (object changed) })
  ]
