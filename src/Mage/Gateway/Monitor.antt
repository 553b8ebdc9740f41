-- ===== src/Mage/Gateway/Monitor.antt =====
-- magefiles/gateway.go: the service monitor of the gateway.
use rhobs.Base.{String, text_comparable, []}
use rhobs.Base.Outcome.{Outcome, ok, ◌>>=◌}
use rhobs.Mage.Value.{Object, text, list, struct, string_map, end, ◌&◌, done, ◌:=◌, ◌⊕◌}
use rhobs.Mage.Params.{TemplateMaps}
use rhobs.Mage.Heap.{Ref, Heap, read, assign}
use rhobs.Mage.Gateway.{gateway_labels, Built}

-- magefiles/lib.go
abbrev pub openshift_customer_monitoring_label : String
openshift_customer_monitoring_label = "prometheus"

abbrev pub openshift_cluster_monitoring_label_value : String
openshift_cluster_monitoring_label_value = "app-sre"

abbrev pub openshift_customer_monitoring_namespace : String
openshift_customer_monitoring_namespace = "openshift-customer-monitoring"

abbrev pub monitor : (match_ns : String) → Ref → Ref → Heap → Object
monitor match_ns labels selector h = record {
  api_version = "monitoring.coreos.com/v1";
  kind = "ServiceMonitor";
  name = "rhobs-gateway";
  namespace = openshift_customer_monitoring_namespace;
  labels = (read labels h);
  annotations = [];
  body =
      "Spec"
        := struct (
            "Endpoints"
              := list (
                  struct (
                    "Port" := text "internal"
                    ⊕ "Path" := text "/metrics"
                    ⊕ "Interval" := text "30s"
                    ⊕ done)
                  & struct (
                      "Port" := text "opa-ams-metrics"
                      ⊕ "Path" := text "/metrics"
                      ⊕ "Interval" := text "30s"
                      ⊕ done)
                  & struct (
                      "Port" := text "metrics"
                      ⊕ "Path" := text "/metrics"
                      ⊕ "Interval" := text "30s"
                      ⊕ done)
                  & end)
            ⊕ "Selector" := struct ("MatchLabels" := string_map (read selector h) ⊕ done)
            ⊕ "NamespaceSelector" := struct ("MatchNames" := list (text match_ns & end) ⊕ done)
            ⊕ done)
      ⊕ done;
}

unfoldable pub gateway_service_monitor : TemplateMaps → (match_ns : String) → Heap → Outcome Built
unfolding assign read
gateway_service_monitor m match_ns h = do
  made ← gateway_labels m h
  g ←
      assign made.0.labels openshift_customer_monitoring_label
        openshift_cluster_monitoring_label_value made.1
  ok (monitor match_ns made.0.labels made.0.selector, g)
