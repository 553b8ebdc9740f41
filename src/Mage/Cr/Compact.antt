-- ===== src/Mage/Cr/Compact.antt =====
-- magefiles/cr.go: the compactors.
use rhobs.Base.{String, Bool, true, false, text_comparable, if◌then◌else◌, List, [], ◌∷◌}
use rhobs.Base.Outcome.{Outcome, ok, ◌>>=◌}
use rhobs.Mage.Value.{
  Object, text, num, flag, constant, call, list, struct, end, ◌&◌, done, ◌:=◌, ◌⊕◌,
}
use rhobs.Mage.Params.{TemplateMaps, template_fn}
use rhobs.Mage.Cr.Tracing.{tracing_sidecar}
use rhobs.Mage.Library.{make_oauth_proxy, pod_volume_from_secret, append_at}

unfoldable pub default_compact : String → TemplateMaps → Outcome Object
unfolding template_fn tracing_sidecar
default_compact namespace m = do
  image ← template_fn "COMPACT_DEFAULT" m.images
  version ← template_fn "COMPACT_DEFAULT" m.versions
  log_level ← template_fn "COMPACT_DEFAULT" m.log_levels
  resources ← template_fn "COMPACT_DEFAULT" m.resource_requirements
  bucket ← template_fn "DEFAULT" m.object_storage_bucket
  storage ← template_fn "COMPACT_DEFAULT" m.storage_size
  tracing ← tracing_sidecar m
  ok (record {
    api_version = "monitoring.thanos.io/v1alpha1";
    kind = "ThanosCompact";
    name = "rhobs";
    namespace = namespace;
    labels = [];
    annotations = [];
    body =
        "Spec"
          := struct (
              "CommonFields"
                := struct (
                    "Image" := text image
                    ⊕ "Version" := text version
                    ⊕ "ImagePullPolicy" := constant "corev1.PullIfNotPresent"
                    ⊕ "LogLevel" := text log_level
                    ⊕ "LogFormat" := text "logfmt"
                    ⊕ "ResourceRequirements" := resources
                    ⊕ done)
              ⊕ "ObjectStorageConfig" := bucket
              ⊕ "RetentionConfig"
                := struct (
                    "Raw" := text "365d"
                    ⊕ "FiveMinutes" := text "365d"
                    ⊕ "OneHour" := text "365d"
                    ⊕ done)
              ⊕ "DownsamplingConfig"
                := struct ("Concurrency" := num 1 ⊕ "Disable" := flag false ⊕ done)
              ⊕ "CompactConfig" := struct ("CompactConcurrency" := num 1 ⊕ done)
              ⊕ "DebugConfig"
                := struct (
                    "AcceptMalformedIndex" := flag true
                    ⊕ "HaltOnError" := flag true
                    ⊕ "MaxCompactionLevel" := num 3
                    ⊕ done)
              ⊕ "StorageSize" := text storage
              ⊕ "Additional"
                := struct (
                    "Containers" := list (tracing & end)
                    ⊕ "Args"
                      := list (
                          text
                            "--tracing.config=\"config\":\n  \"sampler_param\": 2\n  \"sampler_type\": \"ratelimiting\"\n  \"service_name\": \"thanos-compact\"\n\"type\": \"JAEGER\""
                          & end)
                    ⊕ done)
              ⊕ "FeatureGates"
                := struct ("ServiceMonitorConfig" := struct ("Enable" := flag false ⊕ done) ⊕ done)
              ⊕ done)
        ⊕ done;
  })

unfoldable pub telemeter_compact : String → TemplateMaps → Outcome Object
unfolding template_fn tracing_sidecar
telemeter_compact namespace m = do
  version ← template_fn "COMPACT_TELEMETER" m.versions
  image ← template_fn "COMPACT_TELEMETER" m.images
  log_level ← template_fn "COMPACT_TELEMETER" m.log_levels
  resources ← template_fn "COMPACT_TELEMETER" m.resource_requirements
  bucket ← template_fn "TELEMETER" m.object_storage_bucket
  storage ← template_fn "COMPACT_TELEMETER" m.storage_size
  tracing ← tracing_sidecar m
  ok (record {
    api_version = "monitoring.thanos.io/v1alpha1";
    kind = "ThanosCompact";
    name = "telemeter";
    namespace = namespace;
    labels = [];
    annotations = [];
    body =
        "Spec"
          := struct (
              "CommonFields"
                := struct (
                    "Version" := text version
                    ⊕ "Image" := text image
                    ⊕ "ImagePullPolicy" := constant "corev1.PullIfNotPresent"
                    ⊕ "LogLevel" := text log_level
                    ⊕ "LogFormat" := text "logfmt"
                    ⊕ "ResourceRequirements" := resources
                    ⊕ done)
              ⊕ "ObjectStorageConfig" := bucket
              ⊕ "RetentionConfig"
                := struct (
                    "Raw" := text "365d"
                    ⊕ "FiveMinutes" := text "365d"
                    ⊕ "OneHour" := text "365d"
                    ⊕ done)
              ⊕ "DownsamplingConfig"
                := struct ("Concurrency" := num 1 ⊕ "Disable" := flag false ⊕ done)
              ⊕ "CompactConfig" := struct ("CompactConcurrency" := num 1 ⊕ done)
              ⊕ "DebugConfig"
                := struct (
                    "AcceptMalformedIndex" := flag true
                    ⊕ "HaltOnError" := flag true
                    ⊕ "MaxCompactionLevel" := num 3
                    ⊕ done)
              ⊕ "StorageSize" := text storage
              ⊕ "Additional"
                := struct (
                    "Containers" := list (tracing & end)
                    ⊕ "Args"
                      := list (
                          text
                            "--tracing.config=\"config\":\n  \"sampler_param\": 2\n  \"sampler_type\": \"ratelimiting\"\n  \"service_name\": \"thanos-compact\"\n\"type\": \"JAEGER\""
                          & end)
                    ⊕ done)
              ⊕ "FeatureGates"
                := struct ("ServiceMonitorConfig" := struct ("Enable" := flag false ⊕ done) ⊕ done)
              ⊕ done)
        ⊕ done;
  })

-- What `compactCR` adds to a compactor if it is served behind the OAuth proxy.
abbrev pub with_oauth : String → String → Object → Object
with_oauth namespace service_account c = record c {
  body =
      append_at ("Spec" ∷ "Additional" ∷ "Volumes" ∷ [])
        (pod_volume_from_secret "tls" "compact-tls")
        (append_at ("Spec" ∷ "Additional" ∷ "Containers" ∷ [])
          (call "GetContainer"
            (make_oauth_proxy 10902 namespace service_account "compact-tls" & end))
          c.body);
}

unfoldable pub compact_cr : String → TemplateMaps → Bool → Outcome (List Object)
unfolding default_compact telemeter_compact append_at make_oauth_proxy
compact_cr namespace m oauth = do
  d ← default_compact namespace m
  t ← telemeter_compact namespace m
  ok (
      (if oauth then with_oauth namespace "thanos-compact-rhobs" d else d)
      ∷ (if oauth then with_oauth namespace "thanos-compact-telemeter" t else t)
      ∷ [])
