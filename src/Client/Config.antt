-- ===== src/Client/Config.antt =====
-- pkg/client/actionconfig.go and pkg/client/restclientgetter.go: the helm configuration for a
-- custom resource. The debug log is left out.
pub mod Filled
mod Rest
unfoldable pub use Rest.*
use helm_operator_plugins.Object.{Unstructured}
use helm_operator_plugins.Storage.{SecretInterface}
use helm_operator_plugins.Client.OwnerRef.{
  match_all_secrets, new_owner_ref_secret_client, owner_ref_client,
}
use helm_operator_plugins.Controllerutil.{RestMapper}
use helm_operator_plugins.Prelude.{
  if◌then◌else◌, message, panic, Result, ok, err, String, Bool, false, Option, none, some, List, [],
  ◌∷◌,
}

module _ (lib : ConfigLib) where
  open lib use {RestConfig, DiscoveryClient, KubeClient, Driver}

  abbrev pub ObjectToStringMapper : Type 0
  ObjectToStringMapper = Unstructured → Result String

  abbrev pub ObjectToRestConfigMapper : Type 0
  ObjectToRestConfigMapper = Unstructured → RestConfig → Result RestConfig

  abbrev pub ObjectToStorageDriverMapper : Type 0
  ObjectToStorageDriverMapper = Unstructured → RestConfig → Result Driver

  -- A function that was not set is nil, here `none`.
  pub record ActionConfigGetter : Type 0 where
    pub base_rest_config : RestConfig
    pub rest_mapper : RestMapper
    pub discovery_client : DiscoveryClient
    pub object_to_client_rest_config : Option ObjectToRestConfigMapper
    pub object_to_client_namespace : Option ObjectToStringMapper
    pub object_to_storage_rest_config : Option ObjectToRestConfigMapper
    pub object_to_storage_driver : Option ObjectToStorageDriverMapper
    pub object_to_storage_namespace : Option ObjectToStringMapper
    pub disable_storage_owner_ref_injection : Bool

  abbrev pub ActionConfigGetterOption : Type 0
  ActionConfigGetterOption = ActionConfigGetter → ActionConfigGetter

  unfoldable pub client_rest_config_mapper : ObjectToRestConfigMapper → ActionConfigGetterOption
  client_rest_config_mapper f getter = record getter { object_to_client_rest_config = some f }

  unfoldable pub client_namespace_mapper : ObjectToStringMapper → ActionConfigGetterOption
  client_namespace_mapper m getter = record getter { object_to_client_namespace = some m }

  unfoldable pub storage_rest_config_mapper : ObjectToRestConfigMapper → ActionConfigGetterOption
  storage_rest_config_mapper f getter = record getter { object_to_storage_rest_config = some f }

  unfoldable pub storage_driver_mapper : ObjectToStorageDriverMapper → ActionConfigGetterOption
  storage_driver_mapper f getter = record getter { object_to_storage_driver = some f }

  unfoldable pub storage_namespace_mapper : ObjectToStringMapper → ActionConfigGetterOption
  storage_namespace_mapper m getter = record getter { object_to_storage_namespace = some m }

  unfoldable pub disable_storage_owner_ref_injection : Bool → ActionConfigGetterOption
  disable_storage_owner_ref_injection v getter = record getter {
    disable_storage_owner_ref_injection = v;
  }

  unfoldable pub rest_config_mapper : ObjectToRestConfigMapper → ActionConfigGetterOption
  rest_config_mapper f getter = record getter {
    object_to_client_rest_config = some f;
    object_to_storage_rest_config = some f;
  }

  unfoldable pub get_object_namespace : ObjectToStringMapper
  get_object_namespace obj = ok obj.namespace

  pub record SecretsStorageDriverOpts : Type 0 where
    pub disable_owner_ref_injection : Bool
    pub storage_namespace_mapper : Option ObjectToStringMapper

  -- The secrets client that the driver stores releases with.
  abbrev pub storage_client : Bool → SecretInterface → Unstructured → SecretInterface
  storage_client disabled secrets obj =
      if disabled
      then secrets
      else owner_ref_client secrets
          (new_owner_ref_secret_client (lib.new_controller_ref obj ∷ []) (some match_all_secrets))

  unfoldable pub default_secrets_storage_driver :
      SecretsStorageDriverOpts → ObjectToStorageDriverMapper
  unfolding get_object_namespace
  default_secrets_storage_driver opts obj rest_config =
      let mapper : ObjectToStringMapper = elim opts.storage_namespace_mapper [
        | none ↦ get_object_namespace
        | some m ↦ m
      ] in
      elim (mapper obj) [
        | err e ↦ err (message "get storage namespace for object")
        | ok storage_namespace ↦ elim (lib.secrets_for rest_config) [
          | err e ↦ err (message "create secrets client for storage")
          | ok secrets_interface ↦ ok (
              lib.new_secrets (
                storage_client opts.disable_owner_ref_injection
                  (secrets_interface storage_namespace) obj))
        ]
      ]

  abbrev or_nil : {A : Type 0} → Option A → A → Option A
  or_nil none a = some a
  or_nil (some b) a = some b

  abbrev copied : ObjectToRestConfigMapper
  copied obj base_rest_config = ok (lib.copy_config base_rest_config)

  -- What NewActionConfigGetter puts in the place of what is nil.
  unfoldable pub fill_defaults : ActionConfigGetter → ActionConfigGetter
  unfolding default_secrets_storage_driver get_object_namespace
  fill_defaults acg =
      let filled = record acg {
        object_to_client_namespace = or_nil acg.object_to_client_namespace get_object_namespace;
        object_to_client_rest_config = or_nil acg.object_to_client_rest_config copied;
        object_to_storage_rest_config = or_nil acg.object_to_storage_rest_config copied;
      } in
      elim acg.object_to_storage_driver [
        | some f ↦ filled
        | none ↦
            let mapper = or_nil acg.object_to_storage_namespace get_object_namespace in
            record filled {
              object_to_storage_namespace = mapper;
              object_to_storage_driver = some (
                  default_secrets_storage_driver (record {
                    disable_owner_ref_injection = acg.disable_storage_owner_ref_injection;
                    storage_namespace_mapper = mapper;
                  }));
            }
      ]

  unfoldable pub apply_each :
      List ActionConfigGetterOption → ActionConfigGetter → ActionConfigGetter
  apply_each [] acg = acg
  apply_each (o ∷ opts) acg = apply_each opts (o acg)

  unfoldable pub new_action_config_getter :
      RestConfig → RestMapper → List ActionConfigGetterOption → Result ActionConfigGetter
  unfolding fill_defaults apply_each
  new_action_config_getter base rm opts = elim (lib.discovery_client base) [
    | err e ↦ err (message "create discovery client")
    | ok cdc ↦ ok (
        fill_defaults (
          apply_each opts (record {
            base_rest_config = base;
            rest_mapper = rm;
            discovery_client = cdc;
            object_to_client_rest_config = none;
            object_to_client_namespace = none;
            object_to_storage_rest_config = none;
            object_to_storage_driver = none;
            object_to_storage_namespace = none;
            disable_storage_owner_ref_injection = false;
          })))
  ]

  -- action.Configuration
  pub record Configuration : Type 0 where
    pub rest_client_getter : RestClientGetter lib
    pub releases : Driver
    pub kube_client : KubeClient

  -- A call of a function that may be nil; its error is printed into a new one.
  abbrev pub ask : {A B : Type 0} → String → Option (A → Result B) → A → Result B
  ask context none a = err (panic "nil pointer dereference")
  ask context (some f) a = elim (f a) [ err e ↦ err (message context) | ok b ↦ ok b ]

  abbrev pub flipped :
      Option ObjectToRestConfigMapper → RestConfig → Option (Unstructured → Result RestConfig)
  flipped none base = none
  flipped (some f) base = some (λ obj. f obj base)

  abbrev pub over :
      Option ObjectToStorageDriverMapper → RestConfig → Option (Unstructured → Result Driver)
  over none config = none
  over (some f) config = some (λ obj. f obj config)

  unfoldable pub action_config_for : ActionConfigGetter → Unstructured → Result Configuration
  unfolding new_rest_client_getter
  action_config_for acg obj =
      elim (ask "get client rest config for object"
        (flipped acg.object_to_client_rest_config acg.base_rest_config) obj) [
          | err e ↦ err e
          | ok client_rest_config ↦
              elim (ask "get client namespace for object" acg.object_to_client_namespace obj) [
                | err e ↦ err e
                | ok client_namespace ↦
                    elim (ask "get storage rest config for object"
                      (flipped acg.object_to_storage_rest_config acg.base_rest_config) obj) [
                        | err e ↦ err e
                        | ok storage_rest_config ↦
                            elim (ask "get storage driver for object"
                              (over acg.object_to_storage_driver storage_rest_config) obj) [
                                | err e ↦ err e
                                | ok d ↦ ok (record {
                                  rest_client_getter =
                                      new_rest_client_getter lib client_rest_config acg.rest_mapper
                                        acg.discovery_client client_namespace;
                                  releases = d;
                                  kube_client =
                                      lib.new_kube client_rest_config acg.rest_mapper
                                        acg.discovery_client client_namespace;
                                })
                              ]
                      ]
              ]
        ]
