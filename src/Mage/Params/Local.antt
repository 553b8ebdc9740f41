-- ===== src/Mage/Params/Local.antt =====
-- magefiles/template.go: the maps of the local environment.
use rhobs.Base.{String, [], ◌∷◌}
use rhobs.Mage.Value.{Value}
use rhobs.Mage.Params.{
  ParamMap, TemplateMaps, requirements, current_thanos_image_stage, current_thanos_version_stage,
  jaeger,
}
use rhobs.Mage.Params.Stage.{stage_log_levels, stage_replicas}
use rhobs.Mage.Params.Resources.{stage_object_storage_bucket}

abbrev pub get_local_resources : Value
get_local_resources = requirements "10m" "20Mi" "20m" "50Mi"

abbrev pub local_images : ParamMap String
local_images =
    ("STORE02W", current_thanos_image_stage)
    ∷ ("STORE2W90D", current_thanos_image_stage)
    ∷ ("STORE90D+", current_thanos_image_stage)
    ∷ ("STORE_DEFAULT", current_thanos_image_stage)
    ∷ ("RECEIVE_ROUTER", current_thanos_image_stage)
    ∷ ("RECEIVE_INGESTOR_TELEMETER", current_thanos_image_stage)
    ∷ ("RECEIVE_INGESTOR_DEFAULT", current_thanos_image_stage)
    ∷ ("RULER", current_thanos_image_stage)
    ∷ ("COMPACT_DEFAULT", current_thanos_image_stage)
    ∷ ("COMPACT_TELEMETER", current_thanos_image_stage)
    ∷ ("QUERY", current_thanos_image_stage)
    ∷ ("QUERY_FRONTEND", current_thanos_image_stage)
    ∷ (jaeger, "quay.io/jaegertracing/jaeger-agent:1.57.0")
    ∷ ("THANOS_OPERATOR", "quay.io/thanos/thanos-operator:main-2025-02-07-f1e3fa9")
    ∷ ("KUBE_RBAC_PROXY", "gcr.io/kubebuilder/kube-rbac-proxy:v0.16.0")
    ∷ []

abbrev pub local_versions : ParamMap String
local_versions =
    ("STORE02W", current_thanos_version_stage)
    ∷ ("STORE2W90D", current_thanos_version_stage)
    ∷ ("STORE90D+", current_thanos_version_stage)
    ∷ ("STORE_DEFAULT", current_thanos_version_stage)
    ∷ ("RECEIVE_ROUTER", current_thanos_version_stage)
    ∷ ("RECEIVE_INGESTOR_TELEMETER", current_thanos_version_stage)
    ∷ ("RECEIVE_INGESTOR_DEFAULT", current_thanos_version_stage)
    ∷ ("RULER", current_thanos_version_stage)
    ∷ ("COMPACT_DEFAULT", current_thanos_version_stage)
    ∷ ("COMPACT_TELEMETER", current_thanos_version_stage)
    ∷ ("QUERY", current_thanos_version_stage)
    ∷ ("QUERY_FRONTEND", current_thanos_version_stage)
    ∷ []

abbrev pub local_storage_size : ParamMap String
local_storage_size =
    ("STORE02W", "1Gi")
    ∷ ("STORE2W90D", "1Gi")
    ∷ ("STORE90D+", "1Gi")
    ∷ ("STORE_DEFAULT", "1Gi")
    ∷ ("RECEIVE_TELEMETER", "1Gi")
    ∷ ("RECEIVE_DEFAULT", "1Gi")
    ∷ ("RULER", "1Gi")
    ∷ ("COMPACT_DEFAULT", "1Gi")
    ∷ ("COMPACT_TELEMETER", "1Gi")
    ∷ []

abbrev pub local_resource_requirements : ParamMap Value
local_resource_requirements =
    ("STORE02W", get_local_resources)
    ∷ ("STORE2W90D", get_local_resources)
    ∷ ("STORE90D+", get_local_resources)
    ∷ ("STORE_DEFAULT", get_local_resources)
    ∷ ("RECEIVE_ROUTER", get_local_resources)
    ∷ ("RECEIVE_INGESTOR_TELEMETER", get_local_resources)
    ∷ ("RECEIVE_INGESTOR_DEFAULT", get_local_resources)
    ∷ ("RULER", get_local_resources)
    ∷ ("COMPACT_DEFAULT", get_local_resources)
    ∷ ("COMPACT_TELEMETER", get_local_resources)
    ∷ ("QUERY", get_local_resources)
    ∷ ("QUERY_FRONTEND", get_local_resources)
    ∷ ("MANAGER", requirements "10m" "64Mi" "500m" "128Mi")
    ∷ ("KUBE_RBAC_PROXY", get_local_resources)
    ∷ []

abbrev pub local_maps : TemplateMaps
local_maps = record {
  images = local_images;
  versions = local_versions;
  log_levels = stage_log_levels;
  storage_size = local_storage_size;
  replicas = stage_replicas;
  resource_requirements = local_resource_requirements;
  object_storage_bucket = stage_object_storage_bucket;
}
