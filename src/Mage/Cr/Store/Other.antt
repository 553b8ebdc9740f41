-- ===== src/Mage/Cr/Store/Other.antt =====
-- magefiles/cr.go: the telemeter store of what is older, and the default store.
use rhobs.Base.{String, true, false, text_comparable, []}
use rhobs.Base.Outcome.{Outcome, ok, ◌>>=◌}
use rhobs.Mage.Value.{Object, text, num, flag, constant, list, struct, end, ◌&◌, done, ◌:=◌, ◌⊕◌}
use rhobs.Mage.Params.{TemplateMaps, template_fn}
use rhobs.Mage.Cr.Tracing.{tracing_sidecar}

unfoldable pub store90dplus : String → TemplateMaps → Outcome Object
unfolding template_fn tracing_sidecar
store90dplus namespace m = do
  image ← template_fn "STORE90D+" m.images
  version ← template_fn "STORE90D+" m.versions
  log_level ← template_fn "STORE90D+" m.log_levels
  resources ← template_fn "STORE90D+" m.resource_requirements
  replicas ← template_fn "STORE90D+" m.replicas
  bucket ← template_fn "TELEMETER" m.object_storage_bucket
  storage ← template_fn "STORE90D+" m.storage_size
  tracing ← tracing_sidecar m
  ok (record {
    api_version = "monitoring.thanos.io/v1alpha1";
    kind = "ThanosStore";
    name = "telemeter-90dplus";
    namespace = namespace;
    labels = [];
    annotations = [];
    body =
        "Spec"
          := struct (
              "CommonFields"
                := struct (
                    "Image" := text image
                    ⊕ "Version" := text version
                    ⊕ "ImagePullPolicy" := constant "corev1.PullIfNotPresent"
                    ⊕ "LogLevel" := text log_level
                    ⊕ "LogFormat" := text "logfmt"
                    ⊕ "ResourceRequirements" := resources
                    ⊕ done)
              ⊕ "Replicas" := num replicas
              ⊕ "ObjectStorageConfig" := bucket
              ⊕ "ShardingStrategy"
                := struct ("Type" := constant "v1alpha1.Block" ⊕ "Shards" := num 1 ⊕ done)
              ⊕ "IndexHeaderConfig"
                := struct (
                    "EnableLazyReader" := flag true
                    ⊕ "LazyDownloadStrategy" := text "lazy"
                    ⊕ "LazyReaderIdleTimeout" := text "5m"
                    ⊕ done)
              ⊕ "StoreLimitsOptions"
                := struct (
                    "StoreLimitsRequestSamples" := num 627040000
                    ⊕ "StoreLimitsRequestSeries" := num 1000000
                    ⊕ done)
              ⊕ "BlockConfig"
                := struct (
                    "BlockDiscoveryStrategy" := text "concurrent"
                    ⊕ "BlockFilesConcurrency" := num 1
                    ⊕ "BlockMetaFetchConcurrency" := num 32
                    ⊕ done)
              ⊕ "IgnoreDeletionMarksDelay" := text "24h"
              ⊕ "MinTime" := text "-90d"
              ⊕ "StorageSize" := text storage
              ⊕ "Additional"
                := struct (
                    "Containers" := list (tracing & end)
                    ⊕ "Args"
                      := list (
                          text
                            "--tracing.config=\"config\":\n  \"sampler_param\": 2\n  \"sampler_type\": \"ratelimiting\"\n  \"service_name\": \"thanos-store\"\n\"type\": \"JAEGER\""
                          & end)
                    ⊕ done)
              ⊕ "FeatureGates"
                := struct ("ServiceMonitorConfig" := struct ("Enable" := flag false ⊕ done) ⊕ done)
              ⊕ done)
        ⊕ done;
  })

unfoldable pub store_default : String → TemplateMaps → Outcome Object
unfolding template_fn tracing_sidecar
store_default namespace m = do
  image ← template_fn "STORE_DEFAULT" m.images
  version ← template_fn "STORE_DEFAULT" m.versions
  log_level ← template_fn "STORE_DEFAULT" m.log_levels
  resources ← template_fn "STORE_DEFAULT" m.resource_requirements
  replicas ← template_fn "STORE_DEFAULT" m.replicas
  bucket ← template_fn "DEFAULT" m.object_storage_bucket
  storage ← template_fn "STORE_DEFAULT" m.storage_size
  tracing ← tracing_sidecar m
  ok (record {
    api_version = "monitoring.thanos.io/v1alpha1";
    kind = "ThanosStore";
    name = "default";
    namespace = namespace;
    labels = [];
    annotations = [];
    body =
        "Spec"
          := struct (
              "CommonFields"
                := struct (
                    "Image" := text image
                    ⊕ "Version" := text version
                    ⊕ "ImagePullPolicy" := constant "corev1.PullIfNotPresent"
                    ⊕ "LogLevel" := text log_level
                    ⊕ "LogFormat" := text "logfmt"
                    ⊕ "ResourceRequirements" := resources
                    ⊕ done)
              ⊕ "Replicas" := num replicas
              ⊕ "ObjectStorageConfig" := bucket
              ⊕ "ShardingStrategy"
                := struct ("Type" := constant "v1alpha1.Block" ⊕ "Shards" := num 1 ⊕ done)
              ⊕ "IndexHeaderConfig"
                := struct (
                    "EnableLazyReader" := flag true
                    ⊕ "LazyDownloadStrategy" := text "lazy"
                    ⊕ "LazyReaderIdleTimeout" := text "5m"
                    ⊕ done)
              ⊕ "StoreLimitsOptions"
                := struct (
                    "StoreLimitsRequestSamples" := num 0
                    ⊕ "StoreLimitsRequestSeries" := num 0
                    ⊕ done)
              ⊕ "BlockConfig"
                := struct (
                    "BlockDiscoveryStrategy" := text "concurrent"
                    ⊕ "BlockFilesConcurrency" := num 1
                    ⊕ "BlockMetaFetchConcurrency" := num 32
                    ⊕ done)
              ⊕ "IgnoreDeletionMarksDelay" := text "24h"
              ⊕ "MaxTime" := text "-22h"
              ⊕ "StorageSize" := text storage
              ⊕ "Additional"
                := struct (
                    "Containers" := list (tracing & end)
                    ⊕ "Args"
                      := list (
                          text
                            "--tracing.config=\"config\":\n  \"sampler_param\": 2\n  \"sampler_type\": \"ratelimiting\"\n  \"service_name\": \"thanos-store\"\n\"type\": \"JAEGER\""
                          & end)
                    ⊕ done)
              ⊕ "FeatureGates"
                := struct ("ServiceMonitorConfig" := struct ("Enable" := flag false ⊕ done) ⊕ done)
              ⊕ done)
        ⊕ done;
  })
