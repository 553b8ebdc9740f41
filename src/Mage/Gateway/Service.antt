-- ===== src/Mage/Gateway/Service.antt =====
-- magefiles/gateway.go: the service of the gateway.
use rhobs.Base.{String, text_comparable, []}
use rhobs.Base.Outcome.{Outcome, ok, ◌>>=◌}
use rhobs.Mage.Value.{
  Object, text, num, constant, call, list, struct, string_map, end, ◌&◌, done, ◌:=◌, ◌⊕◌,
}
use rhobs.Mage.Params.{TemplateMaps}
use rhobs.Mage.Heap.{Ref, Heap, read}
use rhobs.Mage.Gateway.{gateway_name, gateway_labels, Built}

abbrev pub service : (namespace : String) → Ref → Ref → Heap → Object
service namespace labels selector h = record {
  api_version = "v1";
  kind = "Service";
  name = gateway_name;
  namespace = namespace;
  labels = (read labels h);
  annotations = [];
  body =
      "Spec"
        := struct (
            "Type" := constant "corev1.ServiceTypeClusterIP"
            ⊕ "SessionAffinity" := constant "corev1.ServiceAffinityNone"
            ⊕ "InternalTrafficPolicy" := constant "corev1.ServiceInternalTrafficPolicyCluster"
            ⊕ "IPFamilyPolicy" := constant "corev1.IPFamilyPolicySingleStack"
            ⊕ "IPFamilies" := list (constant "corev1.IPv4Protocol" & end)
            ⊕ "Ports"
              := list (
                  struct (
                    "Name" := text "grpc-public"
                    ⊕ "Protocol" := constant "corev1.ProtocolTCP"
                    ⊕ "AppProtocol" := text "h2c"
                    ⊕ "Port" := num 8090
                    ⊕ "TargetPort" := call "intstr.FromInt32" (num 8090 & end)
                    ⊕ done)
                  & struct (
                      "Name" := text "internal"
                      ⊕ "Protocol" := constant "corev1.ProtocolTCP"
                      ⊕ "AppProtocol" := text "http"
                      ⊕ "Port" := num 8081
                      ⊕ "TargetPort" := call "intstr.FromInt32" (num 8081 & end)
                      ⊕ done)
                  & struct (
                      "Name" := text "public"
                      ⊕ "Protocol" := constant "corev1.ProtocolTCP"
                      ⊕ "AppProtocol" := text "http"
                      ⊕ "Port" := num 8080
                      ⊕ "TargetPort" := call "intstr.FromInt32" (num 8080 & end)
                      ⊕ done)
                  & struct (
                      "Name" := text "opa-ams-api"
                      ⊕ "Protocol" := constant "corev1.ProtocolTCP"
                      ⊕ "Port" := num 8082
                      ⊕ "TargetPort" := call "intstr.FromInt32" (num 8082 & end)
                      ⊕ done)
                  & struct (
                      "Name" := text "opa-ams-metrics"
                      ⊕ "Protocol" := constant "corev1.ProtocolTCP"
                      ⊕ "Port" := num 8083
                      ⊕ "TargetPort" := call "intstr.FromInt32" (num 8083 & end)
                      ⊕ done)
                  & end)
            ⊕ "Selector" := string_map (read selector h)
            ⊕ done)
      ⊕ done;
}

unfoldable pub create_gateway_service : TemplateMaps → (namespace : String) → Heap → Outcome Built
unfolding read
create_gateway_service m namespace h = do
  made ← gateway_labels m h
  ok (service namespace made.0.labels made.0.selector, made.1)
