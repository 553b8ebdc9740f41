-- ===== src/Mage/Cr/Ruler.antt =====
-- magefiles/cr.go: the ruler.
use rhobs.Base.{String, ◌<>◌, true, false, text_comparable, [], ◌∷◌}
use rhobs.Base.Outcome.{Outcome, ok, ◌>>=◌}
use rhobs.Mage.Value.{
  Object, text, num, flag, constant, list, struct, string_map, end, ◌&◌, done, ◌:=◌, ◌⊕◌,
}
use rhobs.Mage.Params.{TemplateMaps, template_fn}
use rhobs.Mage.Cr.Tracing.{tracing_sidecar}

unfoldable pub ruler_cr : String → TemplateMaps → Outcome Object
unfolding template_fn tracing_sidecar
ruler_cr namespace m = do
  image ← template_fn "RULER" m.images
  version ← template_fn "RULER" m.versions
  log_level ← template_fn "RULER" m.log_levels
  resources ← template_fn "RULER" m.resource_requirements
  replicas ← template_fn "RULER" m.replicas
  bucket ← template_fn "DEFAULT" m.object_storage_bucket
  storage ← template_fn "RULER" m.storage_size
  tracing ← tracing_sidecar m
  ok (record {
    api_version = "monitoring.thanos.io/v1alpha1";
    kind = "ThanosRuler";
    name = "rhobs";
    namespace = namespace;
    labels = [];
    annotations = [];
    body =
        "Spec"
          := struct (
              "CommonFields"
                := struct (
                    "Image" := text image
                    ⊕ "Version" := text version
                    ⊕ "ImagePullPolicy" := constant "corev1.PullIfNotPresent"
                    ⊕ "LogLevel" := text log_level
                    ⊕ "LogFormat" := text "logfmt"
                    ⊕ "ResourceRequirements" := resources
                    ⊕ done)
              ⊕ "Paused" := flag true
              ⊕ "Replicas" := num replicas
              ⊕ "RuleConfigSelector"
                := struct (
                    "MatchLabels" := string_map (("operator.thanos.io/rule-file", "true") ∷ [])
                    ⊕ done)
              ⊕ "PrometheusRuleSelector"
                := struct (
                    "MatchLabels"
                      := string_map (("operator.thanos.io/prometheus-rule", "true") ∷ [])
                    ⊕ done)
              ⊕ "QueryLabelSelector"
                := struct (
                    "MatchLabels"
                      := string_map (
                          ("operator.thanos.io/query-api", "true")
                          ∷ ("app.kubernetes.io/part-of", "thanos")
                          ∷ [])
                    ⊕ done)
              ⊕ "ExternalLabels" := string_map (("rule_replica", "$(NAME)") ∷ [])
              ⊕ "ObjectStorageConfig" := bucket
              ⊕ "AlertmanagerURL"
                := text (
                    ("dnssrv+http://alertmanager-cluster." <> namespace)
                    <> ".svc.cluster.local:9093")
              ⊕ "AlertLabelDrop" := list (text "rule_replica" & end)
              ⊕ "Retention" := text "48h"
              ⊕ "EvaluationInterval" := text "1m"
              ⊕ "StorageSize" := text storage
              ⊕ "Additional"
                := struct (
                    "Containers" := list (tracing & end)
                    ⊕ "Args"
                      := list (
                          text
                            "--tracing.config=\"config\":\n  \"sampler_param\": 2\n  \"sampler_type\": \"ratelimiting\"\n  \"service_name\": \"thanos-ruler\"\n\"type\": \"JAEGER\""
                          & end)
                    ⊕ done)
              ⊕ "FeatureGates"
                := struct ("ServiceMonitorConfig" := struct ("Enable" := flag false ⊕ done) ⊕ done)
              ⊕ done)
        ⊕ done;
  })
