-- ===== src/Mage/Operator/Monitors.antt =====
-- magefiles/servicemonitors.go: what scrapes the operator.
use rhobs.Base.{String, true, List, [], ◌∷◌}
use rhobs.Mage.Value.{Object, text, flag, list, struct, string_map, end, ◌&◌, done, ◌:=◌, ◌⊕◌}
use rhobs.Mage.OperatorCr.{
  File, template, documents, generator, first_items, stage_namespace, local_namespace,
}
use rhobs.Base.Outcome.{Outcome, ok, ◌>>=◌}

unfoldable pub service_monitor : (namespace : String) → List Object
service_monitor namespace =
    record {
      api_version = "monitoring.coreos.com/v1";
      kind = "ServiceMonitor";
      name = "thanos-operator-controller-manager-metrics";
      namespace = "openshift-customer-monitoring";
      labels =
          ("app.kubernetes.io/component", "monitoring")
          ∷ ("app.kubernetes.io/created-by", "thanos-operator")
          ∷ ("app.kubernetes.io/instance", "controller-manager-metrics")
          ∷ ("app.kubernetes.io/managed-by", "rhobs")
          ∷ ("app.kubernetes.io/name", "servicemonitor")
          ∷ ("app.kubernetes.io/part-of", "thanos-operator")
          ∷ ("prometheus", "app-sre")
          ∷ [];
      annotations = [];
      body =
          "Spec"
            := struct (
                "Endpoints"
                  := list (
                      struct (
                        "BearerTokenFile"
                          := text "/var/run/secrets/kubernetes.io/serviceaccount/token"
                        ⊕ "Path" := text "/metrics"
                        ⊕ "Port" := text "https"
                        ⊕ "Scheme" := text "https"
                        ⊕ "TLSConfig"
                          := struct (
                              "SafeTLSConfig" := struct ("InsecureSkipVerify" := flag true ⊕ done)
                              ⊕ done)
                        ⊕ done)
                      & end)
                ⊕ "Selector"
                  := struct (
                      "MatchLabels" := string_map (("control-plane", "controller-manager") ∷ [])
                      ⊕ done)
                ⊕ "NamespaceSelector" := struct ("MatchNames" := list (text namespace & end) ⊕ done)
                ⊕ done)
          ⊕ done;
    }
    ∷ []

unfoldable pub stage_service_monitors : File
stage_service_monitors = record {
  dir = generator "staging" "servicemonitors";
  name = "servicemonitors.yaml";
  contents = template "thanos-operator-servicemonitors" (service_monitor stage_namespace) [];
}

unfoldable pub local_service_monitors : Outcome File
unfolding service_monitor
local_service_monitors = do
  items ← first_items 1 (service_monitor local_namespace)
  ok (record {
    dir = generator "local" "servicemonitors";
    name = "servicemonitors.yaml";
    contents = documents items;
  })
