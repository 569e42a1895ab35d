-- ===== src/Client/Config/Filled.antt =====
-- What a getter that NewActionConfigGetter returns can be relied on for.
use helm_operator_plugins.Object.{Unstructured}
use helm_operator_plugins.Storage.{Secret}
use helm_operator_plugins.Client.OwnerRef.{
  match_all_secrets, new_owner_ref_secret_client, append_missing_owner_refs,
}
use helm_operator_plugins.Controllerutil.{RestMapper}
use helm_operator_plugins.Client.Config.{
  ConfigLib, ActionConfigGetter, ActionConfigGetterOption, fill_defaults, apply_each,
  new_action_config_getter, action_config_for,
}
use helm_operator_plugins.Prelude.{
  is_some, panic, ok, err, Result-cases, String, ◌≡◌, subst, ◌≢◌, inl, inr, true, false, none, some,
  List, [], ◌∷◌, arith,
}

-- No function that ActionConfigFor calls is nil.
abbrev pub IsFilled : (lib : ConfigLib) → ActionConfigGetter lib → Type 0
IsFilled lib acg =
    (is_some acg.object_to_client_rest_config ≡ true)
    × (is_some acg.object_to_client_namespace ≡ true)
    × (is_some acg.object_to_storage_rest_config ≡ true)
    × (is_some acg.object_to_storage_driver ≡ true)

module _ (lib : ConfigLib) where
  fill_defaults-IsFilled : (acg : ActionConfigGetter lib) → IsFilled lib (fill_defaults lib acg)
  unfolding fill_defaults
  fill_defaults-IsFilled acg = ground arith

  filled_runs :
      (acg : ActionConfigGetter lib) (obj : Unstructured) (m : String)
      → IsFilled lib acg
      → action_config_for lib acg obj ≢ err (panic m)
  unfolding action_config_for
  filled_runs acg obj m filled h = ground arith

  -- The getter before its options.
  abbrev fresh : lib.RestConfig → RestMapper → lib.DiscoveryClient → ActionConfigGetter lib
  fresh base rm cdc = record {
    base_rest_config = base;
    rest_mapper = rm;
    discovery_client = cdc;
    object_to_client_rest_config = none;
    object_to_client_namespace = none;
    object_to_storage_rest_config = none;
    object_to_storage_driver = none;
    object_to_storage_namespace = none;
    disable_storage_owner_ref_injection = false;
  }

  -- Whatever options it is given, NewActionConfigGetter returns a getter with which
  -- ActionConfigFor calls no nil function, for any object.
  pub action_config_for_runs :
      (base : lib.RestConfig) (rm : RestMapper) (opts : List (ActionConfigGetterOption lib))
      (acg : ActionConfigGetter lib) (obj : Unstructured) (m : String)
      → new_action_config_getter lib base rm opts ≡ ok acg
      → action_config_for lib acg obj ≢ err (panic m)
  unfolding new_action_config_getter
  action_config_for_runs base rm opts acg obj m made =
      elim (Result-cases (lib.discovery_client base)) [
        | inr (x, e) ↦ ground (arith, e, made)
        | inl (cdc, e) ↦
            let same : fill_defaults lib (apply_each lib opts (fresh base rm cdc)) ≡ acg =
              ground (arith, e, made) in
            filled_runs acg obj m (
              subst (IsFilled lib) same
                (fill_defaults-IsFilled (apply_each lib opts (fresh base rm cdc))))
      ]

  -- The secret that the storage client writes for `secret`.
  abbrev pub owned_by : Unstructured → Secret → Secret
  owned_by obj secret =
      append_missing_owner_refs
        (new_owner_ref_secret_client (lib.new_controller_ref obj ∷ []) (some match_all_secrets))
        secret
