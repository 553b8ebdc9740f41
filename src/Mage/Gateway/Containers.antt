-- ===== src/Mage/Gateway/Containers.antt =====
-- magefiles/gateway.go: the containers of the API and of its tracing agent.
use rhobs.Base.{String, ◌<>◌, true, text_comparable}
use rhobs.Base.Outcome.{Outcome, ok, ◌>>=◌}
use rhobs.Mage.Value.{
  Value, text, num, flag, constant, call, list, struct, end, ◌&◌, done, ◌:=◌, ◌⊕◌,
}
use rhobs.Mage.Params.{TemplateMaps, index, template_fn, observatorium_api, jaeger}
use rhobs.Mage.Gateway.{
  gateway_name, component_jaeger_agent, qfe_service, router_service, alert_manager_name,
}

abbrev pub observatorium_api_container :
    TemplateMaps → (namespace : String) → (image : String) → Value
observatorium_api_container m namespace image = struct (
    "Name" := text gateway_name
    ⊕ "Image" := text image
    ⊕ "Args"
      := list (
          text "--web.listen=0.0.0.0:8080"
          & text "--web.internal.listen=0.0.0.0:8081"
          & text "--log.level=info"
          & text (
              "--metrics.read.endpoint=http://"
              <> (qfe_service <> ("." <> (namespace <> ".svc.cluster.local:9090"))))
          & text (
              "--metrics.write.endpoint=http://"
              <> (router_service <> ("." <> (namespace <> ".svc.cluster.local:19291"))))
          & text (
              "--metrics.alertmanager.endpoint=http://"
              <> (alert_manager_name <> ("." <> (namespace <> ".svc.cluster.local:9093"))))
          & text "--rbac.config=/etc/observatorium/rbac.yaml"
          & text "--tenants.config=/etc/observatorium/tenants.yaml"
          & end)
    ⊕ "Ports"
      := list (
          struct ("Name" := text "grpc-public" ⊕ "ContainerPort" := num 8090 ⊕ done)
          & struct ("Name" := text "internal" ⊕ "ContainerPort" := num 8081 ⊕ done)
          & struct ("Name" := text "public" ⊕ "ContainerPort" := num 8080 ⊕ done)
          & end)
    ⊕ "Resources" := (index observatorium_api m.resource_requirements (struct done))
    ⊕ "VolumeMounts"
      := list (
          struct (
            "Name" := text "rbac"
            ⊕ "ReadOnly" := flag true
            ⊕ "MountPath" := text "/etc/observatorium/rbac.yaml"
            ⊕ "SubPath" := text "rbac.yaml"
            ⊕ done)
          & struct (
              "Name" := text "tenants"
              ⊕ "ReadOnly" := flag true
              ⊕ "MountPath" := text "/etc/observatorium/tenants.yaml"
              ⊕ "SubPath" := text "tenants.yaml"
              ⊕ done)
          & end)
    ⊕ "LivenessProbe"
      := struct (
          "ProbeHandler"
            := struct (
                "HTTPGet"
                  := struct (
                      "Path" := text "/live"
                      ⊕ "Port" := call "intstr.FromInt32" (num 8081 & end)
                      ⊕ "Scheme" := constant "corev1.URISchemeHTTP"
                      ⊕ done)
                ⊕ done)
          ⊕ "FailureThreshold" := num 10
          ⊕ "PeriodSeconds" := num 30
          ⊕ done)
    ⊕ "ReadinessProbe"
      := struct (
          "ProbeHandler"
            := struct (
                "HTTPGet"
                  := struct (
                      "Path" := text "/ready"
                      ⊕ "Port" := call "intstr.FromInt32" (num 8081 & end)
                      ⊕ "Scheme" := constant "corev1.URISchemeHTTP"
                      ⊕ done)
                ⊕ done)
          ⊕ "FailureThreshold" := num 12
          ⊕ "PeriodSeconds" := num 5
          ⊕ done)
    ⊕ done)

unfoldable pub create_observatorium_api_container :
    TemplateMaps → (namespace : String) → Outcome Value
unfolding template_fn index
create_observatorium_api_container m namespace = do
  image ← template_fn observatorium_api m.images
  ok (observatorium_api_container m namespace image)

abbrev pub jaeger_agent_container : TemplateMaps → (image : String) → Value
jaeger_agent_container m image = struct (
    "Name" := text component_jaeger_agent
    ⊕ "Image" := text image
    ⊕ "ImagePullPolicy" := constant "corev1.PullIfNotPresent"
    ⊕ "Args"
      := list (
          text
            "--reporter.grpc.host-port=dns:///otel-trace-writer-collector-headless.observatorium-tools.svc:14250"
          & text "--reporter.type=grpc"
          & text "--agent.tags=pod.namespace=$(NAMESPACE),pod.name=$(POD)"
          & end)
    ⊕ "Env"
      := list (
          struct (
            "Name" := text "NAMESPACE"
            ⊕ "ValueFrom"
              := struct (
                  "FieldRef"
                    := struct (
                        "APIVersion" := text "v1" ⊕ "FieldPath" := text "metadata.namespace" ⊕ done)
                  ⊕ done)
            ⊕ done)
          & struct (
              "Name" := text "POD"
              ⊕ "ValueFrom"
                := struct (
                    "FieldRef"
                      := struct
                          ("APIVersion" := text "v1" ⊕ "FieldPath" := text "metadata.name" ⊕ done)
                    ⊕ done)
              ⊕ done)
          & end)
    ⊕ "Ports"
      := list (
          struct (
            "Name" := text "configs"
            ⊕ "ContainerPort" := num 5778
            ⊕ "Protocol" := constant "corev1.ProtocolTCP"
            ⊕ done)
          & struct (
              "Name" := text "jaeger-thrift"
              ⊕ "ContainerPort" := num 6831
              ⊕ "Protocol" := constant "corev1.ProtocolTCP"
              ⊕ done)
          & struct (
              "Name" := text "metrics"
              ⊕ "ContainerPort" := num 14271
              ⊕ "Protocol" := constant "corev1.ProtocolTCP"
              ⊕ done)
          & end)
    ⊕ "Resources" := (index observatorium_api m.resource_requirements (struct done))
    ⊕ "LivenessProbe"
      := struct (
          "ProbeHandler"
            := struct (
                "HTTPGet"
                  := struct (
                      "Path" := text "/"
                      ⊕ "Port" := call "intstr.FromInt32" (num 14271 & end)
                      ⊕ "Scheme" := constant "corev1.URISchemeHTTP"
                      ⊕ done)
                ⊕ done)
          ⊕ "TimeoutSeconds" := num 1
          ⊕ "PeriodSeconds" := num 10
          ⊕ "SuccessThreshold" := num 1
          ⊕ "FailureThreshold" := num 5
          ⊕ done)
    ⊕ "ReadinessProbe"
      := struct (
          "ProbeHandler"
            := struct (
                "HTTPGet"
                  := struct (
                      "Path" := text "/"
                      ⊕ "Port" := call "intstr.FromInt32" (num 14271 & end)
                      ⊕ "Scheme" := constant "corev1.URISchemeHTTP"
                      ⊕ done)
                ⊕ done)
          ⊕ "InitialDelaySeconds" := num 1
          ⊕ "TimeoutSeconds" := num 1
          ⊕ "PeriodSeconds" := num 10
          ⊕ "SuccessThreshold" := num 1
          ⊕ "FailureThreshold" := num 3
          ⊕ done)
    ⊕ "TerminationMessagePath" := text "/dev/termination-log"
    ⊕ "TerminationMessagePolicy" := constant "corev1.TerminationMessageFallbackToLogsOnError"
    ⊕ done)

unfoldable pub create_jaeger_agent_container : TemplateMaps → Outcome Value
unfolding template_fn index
create_jaeger_agent_container m = do
  image ← template_fn jaeger m.images
  ok (jaeger_agent_container m image)
