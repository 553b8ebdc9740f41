-- ===== src/Mage/Params.antt =====
-- magefiles/template.go: the maps from parameters to configuration values.
pub mod Stage
pub mod Resources
pub mod Local
pub mod Lookup
use rhobs.Base.{ℕ, String, ◌<>◌, Option, none, some, text_comparable, List, [], ◌∷◌}
use rhobs.Base.Dict.{Dict, lookup}
use rhobs.Base.Outcome.{Outcome, ok, panic}
use rhobs.Mage.Value.{Value, text, call, struct, end, ◌&◌, done, ◌:=◌, ◌⊕◌}

abbrev pub ParamMap {ℓ} : Type ℓ → Type ℓ
ParamMap T = Dict String T

pub record TemplateMaps : Type 0 where
  pub images : ParamMap String
  pub versions : ParamMap String
  pub log_levels : ParamMap String
  pub storage_size : ParamMap String
  pub replicas : ParamMap ℕ
  pub resource_requirements : ParamMap Value
  pub object_storage_bucket : ParamMap Value

abbrev pub found {ℓ} : {T : Type ℓ} → String → Option T → Outcome T
found param none = panic ("param " <> (param <> " not found in stage"))
found param (some v) = ok v

-- Panics if the parameter is not in the map.
unfoldable pub template_fn {ℓ} : {T : Type ℓ} → String → ParamMap T → Outcome T
unfolding lookup
template_fn param m = found param (lookup param m)

abbrev value_or {ℓ} : {T : Type ℓ} → T → Option T → T
value_or zero_value none = zero_value
value_or zero_value (some v) = v

-- Go's `m[param]`: the zero value of the type if the parameter is not in the map.
unfoldable pub index {ℓ} : {T : Type ℓ} → String → ParamMap T → T → T
unfolding lookup
index param m zero_value = value_or zero_value (lookup param m)

abbrev pub current_thanos_image_stage : String
current_thanos_image_stage = "quay.io/thanos/thanos"

abbrev pub current_thanos_version_stage : String
current_thanos_version_stage = "v0.37.2"

abbrev pub current_thanos_konflux_image_stage : String
current_thanos_konflux_image_stage = "quay.io/redhat-user-workloads/rhobs-mco-tenant/rhobs-thanos"

abbrev pub current_thanos_konflux_version_stage : String
current_thanos_konflux_version_stage = "c7c3ef94c51d518bb6056d3ad416d7b4f39559f3"

abbrev pub thanos_operator_stage : String
thanos_operator_stage = "9a9d855a9b292274114239ca9859b19fc5c83322"

abbrev pub memcached_tag : String
memcached_tag = "1.5-316"

abbrev pub memcached_image : String
memcached_image = "registry.redhat.io/rhel8/memcached" <> (":" <> memcached_tag)

abbrev pub memcached_exporter_image : String
memcached_exporter_image = "quay.io/prometheus/memcached-exporter:v0.15.0"

abbrev pub api_cache : String
api_cache = "API_CACHE"

abbrev pub memcached_exporter : String
memcached_exporter = "MEMCACHED_EXPORTER"

abbrev pub jaeger : String
jaeger = "JAEGER_AGENT"

abbrev pub observatorium_api : String
observatorium_api = "OBSERVATORIUM_API"

abbrev pub opa_ams : String
opa_ams = "OPA_AMS"

-- The entry of `logLevels` that the stage maps use, `logLevels[1]`.
abbrev pub info_level : String
info_level = "info"

abbrev quantity : String → Value
quantity s = call "resource.MustParse" (text s & end)

abbrev pub resource_list : (cpu memory : String) → Value
resource_list cpu memory =
    struct
      ("corev1.ResourceCPU" := quantity cpu ⊕ "corev1.ResourceMemory" := quantity memory ⊕ done)

-- The literal `corev1.ResourceRequirements{Requests: …, Limits: …}` of the maps.
abbrev pub requirements : (cpu_request memory_request cpu_limit memory_limit : String) → Value
requirements cpu_request memory_request cpu_limit memory_limit = struct (
    "Requests" := resource_list cpu_request memory_request
    ⊕ "Limits" := resource_list cpu_limit memory_limit
    ⊕ done)
