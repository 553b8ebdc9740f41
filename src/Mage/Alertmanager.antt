-- ===== src/Mage/Alertmanager.antt =====
-- magefiles/alertmanager.go: the types, and the options of the stateful set. The packages of the
-- observatorium project that make the manifests are parameters.
pub mod Target
pub mod Peers
pub mod Listed
pub mod Kept
pub mod Changed
pub mod Taken
pub mod Processed
pub mod Built
mod Tests
use rhobs.Base.{
  ℕ, suc, zero, String, ◌<>◌, ltb, text_comparable, if◌then◌else◌, List, [], ◌∷◌, ◌++◌,
}
use rhobs.Base.Text.Decimal.{show}
use rhobs.Mage.Value.{Value, Fields, Object, text, call, end, ◌&◌}
use rhobs.Mage.Library.{make_oauth_proxy}
use rhobs.Mage.Heap.{Ref, Heap, read}
use rhobs.Mage.Gateway.{alert_manager_name}

abbrev pub default_alertmanager_replicas : ℕ
default_alertmanager_replicas = 2

abbrev pub default_alertmanager_image : String
default_alertmanager_image = "registry.redhat.io/openshift4/ose-prometheus-alertmanager"

abbrev pub default_alertmanager_image_tag : String
default_alertmanager_image_tag = "v4.15"

abbrev pub alertmanager_config_secret_name : String
alertmanager_config_secret_name = "alertmanager-config"

abbrev pub alertmanager_config_secret_key : String
alertmanager_config_secret_key = "alertmanager.yaml"

abbrev pub alertmanager_tls_secret : String
alertmanager_tls_secret = "alertmanager-tls"

-- A pointer to an object whose maps are references. The kind stands for its Go type.
pub record Manifest : Type 0 where
  pub api_version : String
  pub kind : String
  pub name : String
  pub namespace : String
  pub labels : Ref
  pub annotations : Ref
  pub body : Fields

-- The object as it is encoded when the maps are those of a heap.
abbrev pub encode : Heap → Manifest → Object
encode h o = record {
  api_version = o.api_version;
  kind = o.kind;
  name = o.name;
  namespace = o.namespace;
  labels = read o.labels h;
  annotations = read o.annotations h;
  body = o.body;
}

-- `alertmanager.AlertManagerOptions`: what is set, the timeout in minutes, and the rest.
pub record AlertManagerOptions : Type 0 where
  pub config_file : Value
  pub cluster_reconnect_timeout : ℕ
  pub cluster_peer : List String
  pub rest : String

-- `alertmanager.AlertManagerStatefulSet`: what is set or read, and the rest. Its options are apart.
pub record AlertManagerStatefulSet : Type 0 where
  pub image : String
  pub replicas : ℕ
  pub name : String
  pub volume_size : String
  pub volume_type : String
  pub container_resources : Value
  pub sidecars : List Value
  pub rest : String

pub record ResourceRequirements : Type 0 where
  pub cpu_request : String
  pub cpu_limit : String
  pub memory_request : String
  pub memory_limit : String

pub record ManifestOptions : Type 0 where
  pub namespace : String
  pub image : String
  pub image_tag : String
  pub requirements : ResourceRequirements

abbrev pub default_requirements : ResourceRequirements
default_requirements = record {
  cpu_request = "100m";
  cpu_limit = "5";
  memory_request = "256Mi";
  memory_limit = "5Gi";
}

abbrev pub default_manifest_options : (namespace : String) → ManifestOptions
default_manifest_options namespace = record {
  namespace = namespace;
  image = default_alertmanager_image;
  image_tag = default_alertmanager_image_tag;
  requirements = default_requirements;
}

unfoldable pub alert_manager_options : (default_options : AlertManagerOptions) → AlertManagerOptions
alert_manager_options default_options = record default_options {
  config_file =
      call "NewConfigFile.WithExistingResource.AsSecret"
        (text alertmanager_config_secret_name & text alertmanager_config_secret_key & end);
  cluster_reconnect_timeout = 5;
}

abbrev pub cluster_peer_of :
    (name : String) → ℕ → (headless_service_name namespace : String) → String
cluster_peer_of name i headless_service_name namespace =
    name
    <> ("-"
        <> (show i
            <> ("."
                <> (headless_service_name <> ("." <> (namespace <> ".svc.cluster.local:9094"))))))

module _ (name headless_service_name namespace : String) where
  -- `for i := …; i < int(alertmanSts.Replicas); i++`, with the number of rounds that are left.
  unfoldable pub peers_loop : (rounds i : ℕ) → AlertManagerOptions → AlertManagerOptions
  peers_loop zero i opts = opts
  peers_loop (suc rounds) i opts = peers_loop rounds (suc i) (record opts {
    cluster_peer =
        opts.cluster_peer ++ (cluster_peer_of name i headless_service_name namespace ∷ []);
  })

module _
    (new_alert_manager : AlertManagerOptions
      → (namespace image_tag : String) → AlertManagerStatefulSet) where
  -- The stateful set as it is configured.
  abbrev pub configured : AlertManagerOptions → ManifestOptions → AlertManagerStatefulSet
  configured opts options = record (new_alert_manager opts options.namespace options.image_tag) {
    image = options.image;
    replicas = default_alertmanager_replicas;
    name = alert_manager_name;
    volume_size = "1Gi";
    volume_type = "gp2";
    container_resources = call "kghelpers.NewResourcesRequirements" (
        text options.requirements.cpu_request
        & text options.requirements.cpu_limit
        & text options.requirements.memory_request
        & text options.requirements.memory_limit
        & end);
    sidecars =
        make_oauth_proxy 9093 options.namespace alert_manager_name alertmanager_tls_secret ∷ [];
  }

  -- The options are changed after they were handed to the library, which keeps a pointer to them.
  unfoldable pub alertmanager_kubernetes :
      AlertManagerOptions → ManifestOptions → AlertManagerOptions × AlertManagerStatefulSet
  unfolding peers_loop make_oauth_proxy show
  alertmanager_kubernetes opts options =
      let sts = configured opts options in
      (
        if ltb 1 sts.replicas
            then peers_loop sts.name (sts.name <> "-cluster") options.namespace sts.replicas 0 opts
            else opts,
        sts,
      )
