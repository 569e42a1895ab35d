-- ===== src/Client/Config/Rest.antt =====
-- pkg/client/restclientgetter.go, and what the helm configuration takes from libraries.
use helm_operator_plugins.Object.{OwnerReference, Unstructured}
use helm_operator_plugins.Storage.{SecretInterface}
use helm_operator_plugins.Controllerutil.{RestMapper}
use helm_operator_plugins.Prelude.{Result, ok, String, Bool, false}

-- The types of client-go and helm that are passed on, and their constructors: the cached discovery
-- client of a rest.Config, rest.CopyConfig, kube.New over a getter with its namespace set, the secrets client
-- of client-go for a namespace, driver.NewSecrets, and metav1.NewControllerRef with the object's kind.
pub record ConfigLib : Type 1 where
  pub RestConfig : Type 0
  pub DiscoveryClient : Type 0
  pub KubeClient : Type 0
  pub Driver : Type 0
  pub discovery_client : RestConfig → Result DiscoveryClient
  pub copy_config : RestConfig → RestConfig
  pub new_kube : RestConfig → RestMapper → DiscoveryClient → String → KubeClient
  pub secrets_for : RestConfig → Result (String → SecretInterface)
  pub new_secrets : SecretInterface → Driver
  pub new_controller_ref : Unstructured → OwnerReference

module _ (lib : ConfigLib) where
  open lib use {RestConfig, DiscoveryClient, KubeClient, Driver}

  -- namespacedRCG, with the restClientGetter in it
  pub record RestClientGetter : Type 0 where
    pub rest_config : RestConfig
    pub rest_mapper : RestMapper
    pub cached_discovery_client : DiscoveryClient
    pub namespace : String

  unfoldable pub new_rest_client_getter :
      RestConfig → RestMapper → DiscoveryClient → String → RestClientGetter
  new_rest_client_getter cfg rm cached_discovery_client ns = record {
    rest_config = cfg;
    rest_mapper = rm;
    cached_discovery_client = cached_discovery_client;
    namespace = ns;
  }

  unfoldable pub to_rest_config : RestClientGetter → Result RestConfig
  to_rest_config c = ok (lib.copy_config c.rest_config)

  unfoldable pub to_discovery_client : RestClientGetter → Result DiscoveryClient
  to_discovery_client c = ok c.cached_discovery_client

  unfoldable pub to_rest_mapper : RestClientGetter → Result RestMapper
  to_rest_mapper c = ok c.rest_mapper

  unfoldable pub for_namespace : RestClientGetter → String → RestClientGetter
  for_namespace c ns = record c { namespace = ns }

  -- The namespace, and whether it was overridden.
  unfoldable pub namespace_config : RestClientGetter → Result (String × Bool)
  namespace_config c = ok (c.namespace, false)
