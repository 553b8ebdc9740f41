-- ===== src/Mage/Cr/Receive.antt =====
-- magefiles/cr.go: the receive router and ingesters.
use rhobs.Base.{String, false, text_comparable, [], ◌∷◌}
use rhobs.Base.Outcome.{Outcome, ok, ◌>>=◌}
use rhobs.Mage.Value.{
  Object, text, num, flag, constant, list, struct, string_map, end, ◌&◌, done, ◌:=◌, ◌⊕◌,
}
use rhobs.Mage.Params.{TemplateMaps, template_fn}
use rhobs.Mage.Cr.Tracing.{tracing_sidecar}

unfoldable pub receive_cr : String → TemplateMaps → Outcome Object
unfolding template_fn tracing_sidecar
receive_cr namespace m = do
  image ← template_fn "RECEIVE_ROUTER" m.images
  version ← template_fn "RECEIVE_ROUTER" m.versions
  log_level ← template_fn "RECEIVE_ROUTER" m.log_levels
  resources ← template_fn "RECEIVE_ROUTER" m.resource_requirements
  replicas ← template_fn "RECEIVE_ROUTER" m.replicas
  tracing ← tracing_sidecar m
  bucket ← template_fn "TELEMETER" m.object_storage_bucket
  tracing2 ← tracing_sidecar m
  image2 ← template_fn "RECEIVE_INGESTOR_TELEMETER" m.images
  version2 ← template_fn "RECEIVE_INGESTOR_TELEMETER" m.versions
  log_level2 ← template_fn "RECEIVE_INGESTOR_TELEMETER" m.log_levels
  resources2 ← template_fn "RECEIVE_INGESTOR_TELEMETER" m.resource_requirements
  replicas2 ← template_fn "RECEIVE_INGESTOR_TELEMETER" m.replicas
  storage ← template_fn "RECEIVE_TELEMETER" m.storage_size
  image3 ← template_fn "RECEIVE_INGESTOR_DEFAULT" m.images
  version3 ← template_fn "RECEIVE_INGESTOR_DEFAULT" m.versions
  log_level3 ← template_fn "RECEIVE_INGESTOR_DEFAULT" m.log_levels
  resources3 ← template_fn "RECEIVE_INGESTOR_DEFAULT" m.resource_requirements
  replicas3 ← template_fn "RECEIVE_INGESTOR_DEFAULT" m.replicas
  bucket2 ← template_fn "DEFAULT" m.object_storage_bucket
  storage2 ← template_fn "RECEIVE_DEFAULT" m.storage_size
  ok (record {
    api_version = "monitoring.thanos.io/v1alpha1";
    kind = "ThanosReceive";
    name = "rhobs";
    namespace = namespace;
    labels = [];
    annotations = [];
    body =
        "Spec"
          := struct (
              "Router"
                := struct (
                    "CommonFields"
                      := struct (
                          "Image" := text image
                          ⊕ "Version" := text version
                          ⊕ "ImagePullPolicy" := constant "corev1.PullIfNotPresent"
                          ⊕ "LogLevel" := text log_level
                          ⊕ "LogFormat" := text "logfmt"
                          ⊕ "ResourceRequirements" := resources
                          ⊕ done)
                    ⊕ "Replicas" := num replicas
                    ⊕ "ReplicationFactor" := num 3
                    ⊕ "ExternalLabels" := string_map (("receive", "true") ∷ [])
                    ⊕ "Additional"
                      := struct (
                          "Containers" := list (tracing & end)
                          ⊕ "Args"
                            := list (
                                text
                                  "--tracing.config=\"config\":\n  \"sampler_param\": 2\n  \"sampler_type\": \"ratelimiting\"\n  \"service_name\": \"thanos-receive-router\"\n\"type\": \"JAEGER\""
                                & end)
                          ⊕ done)
                    ⊕ done)
              ⊕ "Ingester"
                := struct (
                    "DefaultObjectStorageConfig" := bucket
                    ⊕ "Additional"
                      := struct (
                          "Containers" := list (tracing2 & end)
                          ⊕ "Args"
                            := list (
                                text
                                  "--tracing.config=\"config\":\n  \"sampler_param\": 2\n  \"sampler_type\": \"ratelimiting\"\n  \"service_name\": \"thanos-receive-ingester\"\n\"type\": \"JAEGER\""
                                & end)
                          ⊕ done)
                    ⊕ "Hashrings"
                      := list (
                          struct (
                            "Name" := text "telemeter"
                            ⊕ "CommonFields"
                              := struct (
                                  "Image" := text image2
                                  ⊕ "Version" := text version2
                                  ⊕ "ImagePullPolicy" := constant "corev1.PullIfNotPresent"
                                  ⊕ "LogLevel" := text log_level2
                                  ⊕ "LogFormat" := text "logfmt"
                                  ⊕ "ResourceRequirements" := resources2
                                  ⊕ done)
                            ⊕ "ExternalLabels" := string_map (("replica", "$(POD_NAME)") ∷ [])
                            ⊕ "Replicas" := num replicas2
                            ⊕ "TSDBConfig" := struct ("Retention" := text "4h" ⊕ done)
                            ⊕ "AsyncForwardWorkerCount" := num 50
                            ⊕ "TooFarInFutureTimeWindow" := text "5m"
                            ⊕ "StoreLimitsOptions"
                              := struct (
                                  "StoreLimitsRequestSamples" := num 627040000
                                  ⊕ "StoreLimitsRequestSeries" := num 1000000
                                  ⊕ done)
                            ⊕ "TenancyConfig"
                              := struct (
                                  "TenantMatcherType" := text "exact"
                                  ⊕ "DefaultTenantID" := text "FB870BF3-9F3A-44FF-9BF7-D7A047A52F43"
                                  ⊕ "TenantHeader" := text "THANOS-TENANT"
                                  ⊕ "TenantLabelName" := text "tenant_id"
                                  ⊕ done)
                            ⊕ "StorageSize" := text storage
                            ⊕ done)
                          & struct (
                              "Name" := text "default"
                              ⊕ "CommonFields"
                                := struct (
                                    "Image" := text image3
                                    ⊕ "Version" := text version3
                                    ⊕ "ImagePullPolicy" := constant "corev1.PullIfNotPresent"
                                    ⊕ "LogLevel" := text log_level3
                                    ⊕ "LogFormat" := text "logfmt"
                                    ⊕ "ResourceRequirements" := resources3
                                    ⊕ done)
                              ⊕ "ExternalLabels" := string_map (("replica", "$(POD_NAME)") ∷ [])
                              ⊕ "Replicas" := num replicas3
                              ⊕ "TSDBConfig" := struct ("Retention" := text "1d" ⊕ done)
                              ⊕ "AsyncForwardWorkerCount" := num 5
                              ⊕ "TooFarInFutureTimeWindow" := text "5m"
                              ⊕ "StoreLimitsOptions"
                                := struct (
                                    "StoreLimitsRequestSamples" := num 0
                                    ⊕ "StoreLimitsRequestSeries" := num 0
                                    ⊕ done)
                              ⊕ "TenancyConfig"
                                := struct (
                                    "TenantMatcherType" := text "exact"
                                    ⊕ "DefaultTenantID"
                                      := text "FB870BF3-9F3A-44FF-9BF7-D7A047A52F43"
                                    ⊕ "TenantHeader" := text "THANOS-TENANT"
                                    ⊕ "TenantLabelName" := text "tenant_id"
                                    ⊕ done)
                              ⊕ "ObjectStorageConfig" := bucket2
                              ⊕ "StorageSize" := text storage2
                              ⊕ done)
                          & end)
                    ⊕ done)
              ⊕ "FeatureGates"
                := struct ("ServiceMonitorConfig" := struct ("Enable" := flag false ⊕ done) ⊕ done)
              ⊕ done)
        ⊕ done;
  })
