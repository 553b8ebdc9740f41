-- ===== src/Mage/Params/Stage.antt =====
-- magefiles/template.go: the maps of the stage environment.
use rhobs.Base.{ℕ, String, ◌<>◌, [], ◌∷◌}
use rhobs.Mage.Params.{
  ParamMap, current_thanos_konflux_image_stage, current_thanos_konflux_version_stage,
  thanos_operator_stage, memcached_tag, memcached_image, memcached_exporter_image, api_cache,
  memcached_exporter, jaeger, observatorium_api, opa_ams, info_level,
}

abbrev pub stage_images : ParamMap String
stage_images =
    ("STORE02W", current_thanos_konflux_image_stage)
    ∷ ("STORE2W90D", current_thanos_konflux_image_stage)
    ∷ ("STORE90D+", current_thanos_konflux_image_stage)
    ∷ ("STORE_DEFAULT", current_thanos_konflux_image_stage)
    ∷ ("RECEIVE_ROUTER", current_thanos_konflux_image_stage)
    ∷ ("RECEIVE_INGESTOR_TELEMETER", current_thanos_konflux_image_stage)
    ∷ ("RECEIVE_INGESTOR_DEFAULT", current_thanos_konflux_image_stage)
    ∷ ("RULER", current_thanos_konflux_image_stage)
    ∷ ("COMPACT_DEFAULT", current_thanos_konflux_image_stage)
    ∷ ("COMPACT_TELEMETER", current_thanos_konflux_image_stage)
    ∷ ("QUERY", current_thanos_konflux_image_stage)
    ∷ ("QUERY_FRONTEND", current_thanos_konflux_image_stage)
    ∷ (jaeger, "registry.redhat.io/rhosdt/jaeger-agent-rhel8:1.57.0-10")
    ∷ (
      "THANOS_OPERATOR",
      ("quay.io/redhat-user-workloads/rhobs-mco-tenant/rhobs-thanos-operator:"
          <> thanos_operator_stage),
    )
    ∷ (
      "KUBE_RBAC_PROXY",
      "registry.redhat.io/openshift4/ose-kube-rbac-proxy@sha256:98455d503b797b6b02edcfd37045c8fab0796b95ee5cf4cfe73b221a07e805f0",
    )
    ∷ (api_cache, memcached_image)
    ∷ (memcached_exporter, memcached_exporter_image)
    ∷ (
      observatorium_api,
      "quay.io/redhat-user-workloads/rhobs-mco-tenant/observatorium-api:9aada65247a07782465beb500323a0e18d7e3d05",
    )
    ∷ (
      opa_ams,
      "quay.io/redhat-user-workloads/rhobs-mco-tenant/rhobs-konflux-opa-ams:69db2e0545d9e04fd18f2230c1d59ad2766cf65c",
    )
    ∷ []

abbrev pub stage_versions : ParamMap String
stage_versions =
    ("STORE02W", current_thanos_konflux_version_stage)
    ∷ ("STORE2W90D", current_thanos_konflux_version_stage)
    ∷ ("STORE90D+", current_thanos_konflux_version_stage)
    ∷ ("STORE_DEFAULT", current_thanos_konflux_version_stage)
    ∷ ("RECEIVE_ROUTER", current_thanos_konflux_version_stage)
    ∷ ("RECEIVE_INGESTOR_TELEMETER", current_thanos_konflux_version_stage)
    ∷ ("RECEIVE_INGESTOR_DEFAULT", current_thanos_konflux_version_stage)
    ∷ ("RULER", current_thanos_konflux_version_stage)
    ∷ ("COMPACT_DEFAULT", current_thanos_konflux_version_stage)
    ∷ ("COMPACT_TELEMETER", current_thanos_konflux_version_stage)
    ∷ ("QUERY", current_thanos_konflux_version_stage)
    ∷ ("QUERY_FRONTEND", current_thanos_konflux_version_stage)
    ∷ (api_cache, memcached_tag)
    ∷ (observatorium_api, "9aada65247a07782465beb500323a0e18d7e3d05")
    ∷ []

abbrev pub stage_log_levels : ParamMap String
stage_log_levels =
    ("STORE02W", info_level)
    ∷ ("STORE2W90D", info_level)
    ∷ ("STORE90D+", info_level)
    ∷ ("STORE_DEFAULT", info_level)
    ∷ ("RECEIVE_ROUTER", info_level)
    ∷ ("RECEIVE_INGESTOR_TELEMETER", info_level)
    ∷ ("RECEIVE_INGESTOR_DEFAULT", info_level)
    ∷ ("RULER", info_level)
    ∷ ("COMPACT_DEFAULT", info_level)
    ∷ ("COMPACT_TELEMETER", info_level)
    ∷ ("QUERY", info_level)
    ∷ ("QUERY_FRONTEND", info_level)
    ∷ []

abbrev pub stage_storage_size : ParamMap String
stage_storage_size =
    ("STORE02W", "512Mi")
    ∷ ("STORE2W90D", "512Mi")
    ∷ ("STORE90D+", "512Mi")
    ∷ ("STORE_DEFAULT", "512Mi")
    ∷ ("RECEIVE_TELEMETER", "3Gi")
    ∷ ("RECEIVE_DEFAULT", "3Gi")
    ∷ ("RULER", "512Mi")
    ∷ ("COMPACT_DEFAULT", "512Mi")
    ∷ ("COMPACT_TELEMETER", "512Mi")
    ∷ []

abbrev pub stage_replicas : ParamMap ℕ
stage_replicas =
    ("STORE02W", 3)
    ∷ ("STORE2W90D", 3)
    ∷ ("STORE90D+", 3)
    ∷ ("STORE_DEFAULT", 3)
    ∷ ("RECEIVE_ROUTER", 3)
    ∷ ("RECEIVE_INGESTOR_TELEMETER", 6)
    ∷ ("RECEIVE_INGESTOR_DEFAULT", 3)
    ∷ ("RULER", 2)
    ∷ ("QUERY", 6)
    ∷ ("QUERY_FRONTEND", 3)
    ∷ (api_cache, 1)
    ∷ (observatorium_api, 2)
    ∷ []
