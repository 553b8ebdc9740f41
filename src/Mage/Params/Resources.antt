-- ===== src/Mage/Params/Resources.antt =====
-- magefiles/template.go: the resource requirements and buckets of the stage environment.
use rhobs.Base.{false, [], ◌∷◌}
use rhobs.Mage.Value.{Value, text, flag, struct, done, ◌:=◌, ◌⊕◌}
use rhobs.Mage.Params.{
  ParamMap, TemplateMaps, requirements, api_cache, memcached_exporter, observatorium_api,
}
use rhobs.Mage.Params.Stage.{
  stage_images, stage_versions, stage_log_levels, stage_storage_size, stage_replicas,
}

abbrev pub stage_resource_requirements : ParamMap Value
stage_resource_requirements =
    ("STORE02W", requirements "50m" "512Mi" "250m" "2Gi")
    ∷ ("STORE2W90D", requirements "50m" "512Mi" "250m" "2Gi")
    ∷ ("STORE90D+", requirements "50m" "512Mi" "250m" "2Gi")
    ∷ ("STORE_DEFAULT", requirements "50m" "512Mi" "250m" "2Gi")
    ∷ ("RECEIVE_ROUTER", requirements "700m" "2Gi" "2" "5Gi")
    ∷ ("RECEIVE_INGESTOR_TELEMETER", requirements "700m" "2Gi" "2" "5Gi")
    ∷ ("RECEIVE_INGESTOR_DEFAULT", requirements "700m" "2Gi" "2" "5Gi")
    ∷ ("RULER", requirements "700m" "1Gi" "2" "3Gi")
    ∷ ("COMPACT_DEFAULT", requirements "100m" "1Gi" "1" "5Gi")
    ∷ ("COMPACT_TELEMETER", requirements "100m" "1Gi" "1" "5Gi")
    ∷ ("QUERY", requirements "300m" "1Gi" "2" "5Gi")
    ∷ ("QUERY_FRONTEND", requirements "100m" "500Mi" "1" "3Gi")
    ∷ ("MANAGER", requirements "100m" "512Mi" "1" "2Gi")
    ∷ ("KUBE_RBAC_PROXY", requirements "5m" "64Mi" "500m" "128Mi")
    ∷ (api_cache, requirements "500m" "100Mi" "3" "1844Mi")
    ∷ (memcached_exporter, requirements "100m" "100Mi" "200m" "200Mi")
    ∷ (observatorium_api, requirements "100m" "100Mi" "1" "2Gi")
    ∷ []

abbrev pub stage_object_storage_bucket : ParamMap Value
stage_object_storage_bucket =
    (
      "DEFAULT",
      struct (
          "Key" := text "thanos.yaml"
          ⊕ "LocalObjectReference"
            := struct ("Name" := text "observatorium-mst-thanos-objectstorage" ⊕ done)
          ⊕ "Optional" := flag false
          ⊕ done),
    )
    ∷ (
      "TELEMETER",
      struct (
          "Key" := text "thanos.yaml"
          ⊕ "LocalObjectReference" := struct ("Name" := text "thanos-objectstorage" ⊕ done)
          ⊕ "Optional" := flag false
          ⊕ done),
    )
    ∷ []

abbrev pub stage_maps : TemplateMaps
stage_maps = record {
  images = stage_images;
  versions = stage_versions;
  log_levels = stage_log_levels;
  storage_size = stage_storage_size;
  replicas = stage_replicas;
  resource_requirements = stage_resource_requirements;
  object_storage_bucket = stage_object_storage_bucket;
}
