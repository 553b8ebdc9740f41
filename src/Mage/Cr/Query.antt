-- ===== src/Mage/Cr/Query.antt =====
-- magefiles/cr.go: the querier, its frontend and the route to it.
use rhobs.Base.{String, Bool, true, false, text_comparable, if◌then◌else◌, List, [], ◌∷◌}
use rhobs.Base.Outcome.{Outcome, ok, ◌>>=◌}
use rhobs.Mage.Value.{
  Object, text, num, flag, constant, call, list, struct, string_map, end, ◌&◌, done, ◌:=◌, ◌⊕◌,
}
use rhobs.Mage.Params.{TemplateMaps, template_fn}
use rhobs.Mage.Cr.Tracing.{tracing_sidecar}
use rhobs.Mage.Library.{make_oauth_proxy, pod_volume_from_secret, append_at}

unfoldable pub query : String → TemplateMaps → Outcome Object
unfolding template_fn tracing_sidecar
query namespace m = do
  image ← template_fn "QUERY" m.images
  version ← template_fn "QUERY" m.versions
  log_level ← template_fn "QUERY" m.log_levels
  resources ← template_fn "QUERY" m.resource_requirements
  replicas ← template_fn "QUERY" m.replicas
  tracing ← tracing_sidecar m
  image2 ← template_fn "QUERY_FRONTEND" m.images
  version2 ← template_fn "QUERY_FRONTEND" m.versions
  log_level2 ← template_fn "QUERY_FRONTEND" m.log_levels
  resources2 ← template_fn "QUERY_FRONTEND" m.resource_requirements
  replicas2 ← template_fn "QUERY_FRONTEND" m.replicas
  tracing2 ← tracing_sidecar m
  ok (record {
    api_version = "monitoring.thanos.io/v1alpha1";
    kind = "ThanosQuery";
    name = "rhobs";
    namespace = namespace;
    labels = [];
    annotations = [];
    body =
        "Spec"
          := struct (
              "CommonFields"
                := struct (
                    "Image" := text image
                    ⊕ "Version" := text version
                    ⊕ "ImagePullPolicy" := constant "corev1.PullIfNotPresent"
                    ⊕ "LogLevel" := text log_level
                    ⊕ "LogFormat" := text "logfmt"
                    ⊕ "ResourceRequirements" := resources
                    ⊕ done)
              ⊕ "StoreLabelSelector"
                := struct (
                    "MatchLabels"
                      := string_map (
                          ("operator.thanos.io/store-api", "true")
                          ∷ ("app.kubernetes.io/part-of", "thanos")
                          ∷ [])
                    ⊕ done)
              ⊕ "Replicas" := num replicas
              ⊕ "ReplicaLabels"
                := list (text "prometheus_replica" & text "replica" & text "rule_replica" & end)
              ⊕ "WebConfig" := struct ("PrefixHeader" := text "X-Forwarded-Prefix" ⊕ done)
              ⊕ "GRPCProxyStrategy" := text "lazy"
              ⊕ "TelemetryQuantiles"
                := struct (
                    "Duration"
                      := list (
                          text "0.1"
                          & text "0.25"
                          & text "0.75"
                          & text "1.25"
                          & text "1.75"
                          & text "2.5"
                          & text "3"
                          & text "5"
                          & text "10"
                          & text "15"
                          & text "30"
                          & text "60"
                          & text "120"
                          & end)
                    ⊕ done)
              ⊕ "Additional"
                := struct (
                    "Containers" := list (tracing & end)
                    ⊕ "Args"
                      := list (
                          text
                            "--tracing.config=\"config\":\n  \"sampler_param\": 2\n  \"sampler_type\": \"ratelimiting\"\n  \"service_name\": \"thanos-query\"\n\"type\": \"JAEGER\""
                          & end)
                    ⊕ done)
              ⊕ "QueryFrontend"
                := struct (
                    "CommonFields"
                      := struct (
                          "Image" := text image2
                          ⊕ "Version" := text version2
                          ⊕ "ImagePullPolicy" := constant "corev1.PullIfNotPresent"
                          ⊕ "LogLevel" := text log_level2
                          ⊕ "LogFormat" := text "logfmt"
                          ⊕ "ResourceRequirements" := resources2
                          ⊕ done)
                    ⊕ "Replicas" := num replicas2
                    ⊕ "CompressResponses" := flag true
                    ⊕ "LogQueriesLongerThan" := text "10s"
                    ⊕ "LabelsMaxRetries" := num 3
                    ⊕ "QueryRangeMaxRetries" := num 3
                    ⊕ "QueryLabelSelector"
                      := struct (
                          "MatchLabels"
                            := string_map (("operator.thanos.io/query-api", "true") ∷ [])
                          ⊕ done)
                    ⊕ "QueryRangeSplitInterval" := text "48h"
                    ⊕ "LabelsSplitInterval" := text "48h"
                    ⊕ "LabelsDefaultTimeRange" := text "336h"
                    ⊕ "Additional"
                      := struct (
                          "Containers" := list (tracing2 & end)
                          ⊕ "Args"
                            := list (
                                text
                                  "--tracing.config=\"config\":\n  \"sampler_param\": 2\n  \"sampler_type\": \"ratelimiting\"\n  \"service_name\": \"thanos-query-frontend\"\n\"type\": \"JAEGER\""
                                & end)
                          ⊕ done)
                    ⊕ done)
              ⊕ "FeatureGates"
                := struct (
                    "ServiceMonitorConfig" := struct ("Enable" := flag false ⊕ done)
                    ⊕ "PodDisruptionBudgetConfig" := struct ("Enable" := flag false ⊕ done)
                    ⊕ done)
              ⊕ done)
        ⊕ done;
  })

abbrev pub route : String → Object
route namespace = record {
  api_version = "route.openshift.io/v1";
  kind = "Route";
  name = "thanos-query-frontend-rhobs";
  namespace = namespace;
  labels = ("app.kubernetes.io/part-of", "thanos") ∷ [];
  annotations = [];
  body =
      "Spec"
        := struct (
            "To"
              := struct (
                  "Kind" := text "Service"
                  ⊕ "Name" := text "thanos-query-frontend-rhobs"
                  ⊕ "Weight" := num 100
                  ⊕ done)
            ⊕ "Port"
              := struct ("TargetPort" := call "intstr.FromString" (text "https" & end) ⊕ done)
            ⊕ "TLS"
              := struct (
                  "Termination" := constant "routev1.TLSTerminationReencrypt"
                  ⊕ "InsecureEdgeTerminationPolicy"
                    := constant "routev1.InsecureEdgeTerminationPolicyRedirect"
                  ⊕ done)
            ⊕ done)
      ⊕ done;
}

-- What `queryCR` changes in the query if it is served behind the OAuth proxy.
abbrev pub with_oauth : String → Object → Object
with_oauth namespace q = record q {
  annotations =
      ("service.beta.openshift.io/serving-cert-secret-name", "query-frontend-tls")
      ∷ (
        "serviceaccounts.openshift.io/oauth-redirectreference.application",
        "{\"kind\":\"OAuthRedirectReference\",\"apiVersion\":\"v1\",\"reference\":{\"kind\":\"Route\",\"name\":\"thanos-query-frontend-rhobs\"}}",
      )
      ∷ [];
  body =
      append_at ("Spec" ∷ "QueryFrontend" ∷ "Additional" ∷ "Volumes" ∷ [])
        (pod_volume_from_secret "tls" "query-frontend-tls")
        (append_at ("Spec" ∷ "QueryFrontend" ∷ "Additional" ∷ "Containers" ∷ [])
          (call "GetContainer" (
            make_oauth_proxy 9090 namespace "thanos-query-frontend-rhobs" "query-frontend-tls"
            & end))
          (append_at ("Spec" ∷ "QueryFrontend" ∷ "Additional" ∷ "ServicePorts" ∷ [])
            (struct (
              "Name" := text "https"
              ⊕ "Port" := num 8443
              ⊕ "TargetPort"
                := struct ("Type" := constant "intstr.Int" ⊕ "IntVal" := num 8443 ⊕ done)
              ⊕ done))
            q.body));
}

unfoldable pub query_cr : String → TemplateMaps → Bool → Outcome (List Object)
unfolding query append_at make_oauth_proxy
query_cr namespace m oauth = do
  q ← query namespace m
  ok (if oauth then route namespace ∷ with_oauth namespace q ∷ [] else q ∷ [])
