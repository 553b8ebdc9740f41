-- ===== src/Mage/Gateway/Deployment.antt =====
-- magefiles/gateway.go: the deployment of the gateway.
use rhobs.Base.{String, text_comparable, []}
use rhobs.Base.Outcome.{Outcome, ok, ◌>>=◌}
use rhobs.Mage.Value.{
  Value, Object, text, num, constant, list, struct, string_map, end, ◌&◌, done, ◌:=◌, ◌⊕◌,
}
use rhobs.Mage.Params.{TemplateMaps, index, observatorium_api}
use rhobs.Mage.Heap.{Ref, Heap, read}
use rhobs.Mage.Gateway.{gateway_name, gateway_labels, Built}
use rhobs.Mage.Gateway.Containers.{
  create_observatorium_api_container, create_jaeger_agent_container,
}
use rhobs.Mage.Gateway.Ams.{create_opa_ams_container}

abbrev pub deployment :
    TemplateMaps → (namespace : String) (api opa agent : Value) → Ref → Ref → Heap → Object
deployment m namespace api opa agent labels selector h = record {
  api_version = "apps/v1";
  kind = "Deployment";
  name = gateway_name;
  namespace = namespace;
  labels = (read labels h);
  annotations = [];
  body =
      "Spec"
        := struct (
            "Replicas" := num (index observatorium_api m.replicas 0)
            ⊕ "Selector" := struct ("MatchLabels" := string_map (read selector h) ⊕ done)
            ⊕ "Strategy"
              := struct (
                  "Type" := constant "appsv1.RollingUpdateDeploymentStrategyType"
                  ⊕ "RollingUpdate"
                    := struct (
                        "MaxUnavailable"
                          := struct ("Type" := constant "intstr.Int" ⊕ "IntVal" := num 1 ⊕ done)
                        ⊕ "MaxSurge"
                          := struct ("Type" := constant "intstr.Int" ⊕ "IntVal" := num 0 ⊕ done)
                        ⊕ done)
                  ⊕ done)
            ⊕ "Template"
              := struct (
                  "ObjectMeta" := struct ("Labels" := string_map (read labels h) ⊕ done)
                  ⊕ "Spec"
                    := struct (
                        "ServiceAccountName" := text gateway_name
                        ⊕ "Volumes"
                          := list (
                              struct (
                                "Name" := text "rbac"
                                ⊕ "VolumeSource"
                                  := struct (
                                      "ConfigMap"
                                        := struct (
                                            "LocalObjectReference"
                                              := struct ("Name" := text gateway_name ⊕ done)
                                            ⊕ done)
                                      ⊕ done)
                                ⊕ done)
                              & struct (
                                  "Name" := text "tenants"
                                  ⊕ "VolumeSource"
                                    := struct (
                                        "Secret"
                                          := struct ("SecretName" := text gateway_name ⊕ done)
                                        ⊕ done)
                                  ⊕ done)
                              & end)
                        ⊕ "Containers" := list (api & opa & agent & end)
                        ⊕ "Affinity"
                          := struct (
                              "PodAntiAffinity"
                                := struct (
                                    "PreferredDuringSchedulingIgnoredDuringExecution"
                                      := list (
                                          struct (
                                            "Weight" := num 100
                                            ⊕ "PodAffinityTerm"
                                              := struct (
                                                  "LabelSelector"
                                                    := struct (
                                                        "MatchExpressions"
                                                          := list (
                                                            struct (
                                                            "Key" := text "app.kubernetes.io/name"
                                                            ⊕ "Operator"
                                                            := constant "metav1.LabelSelectorOpIn"
                                                            ⊕ "Values"
                                                            := list (text gateway_name & end)
                                                            ⊕ done)
                                                            & end)
                                                        ⊕ done)
                                                  ⊕ "TopologyKey" := text "kubernetes.io/hostname"
                                                  ⊕ done)
                                            ⊕ done)
                                          & end)
                                    ⊕ done)
                              ⊕ done)
                        ⊕ done)
                  ⊕ done)
            ⊕ done)
      ⊕ done;
}

unfoldable pub gateway_deployment :
    TemplateMaps → (namespace ams_url : String) → Heap → Outcome Built
unfolding create_observatorium_api_container create_opa_ams_container create_jaeger_agent_container
    index read
gateway_deployment m namespace ams_url h = do
  made ← gateway_labels m h
  api ← create_observatorium_api_container m namespace
  opa ← create_opa_ams_container m namespace ams_url
  agent ← create_jaeger_agent_container m
  ok (deployment m namespace api opa agent made.0.labels made.0.selector, made.1)
