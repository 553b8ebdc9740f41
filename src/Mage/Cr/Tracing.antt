-- ===== src/Mage/Cr/Tracing.antt =====
-- magefiles/cr.go: the sidecar container for tracing.
use rhobs.Base.{text_comparable}
use rhobs.Base.Outcome.{Outcome, ok, ◌>>=◌}
use rhobs.Mage.Value.{Value, text, num, constant, call, list, struct, end, ◌&◌, done, ◌:=◌, ◌⊕◌}
use rhobs.Mage.Params.{TemplateMaps, template_fn}

unfoldable pub tracing_sidecar : TemplateMaps → Outcome Value
unfolding template_fn
tracing_sidecar m = do
  image ← template_fn "JAEGER_AGENT" m.images
  ok (
      struct (
        "Name" := text "jaeger-agent"
        ⊕ "Image" := text image
        ⊕ "ImagePullPolicy" := constant "corev1.PullIfNotPresent"
        ⊕ "Args"
          := list (
              text
                "--reporter.grpc.host-port=dns:///otel-trace-writer-collector-headless.observatorium-tools.svc:14250"
              & text "--reporter.type=grpc"
              & text "--agent.tags=pod.namespace=$(NAMESPACE),pod.name=$(POD)"
              & end)
        ⊕ "Env"
          := list (
              struct (
                "Name" := text "NAMESPACE"
                ⊕ "ValueFrom"
                  := struct (
                      "FieldRef" := struct ("FieldPath" := text "metadata.namespace" ⊕ done) ⊕ done)
                ⊕ done)
              & struct (
                  "Name" := text "POD"
                  ⊕ "ValueFrom"
                    := struct
                        ("FieldRef" := struct ("FieldPath" := text "metadata.name" ⊕ done) ⊕ done)
                  ⊕ done)
              & end)
        ⊕ "Ports"
          := list (
              struct ("ContainerPort" := num 5778 ⊕ "Name" := text "configs" ⊕ done)
              & struct ("ContainerPort" := num 6831 ⊕ "Name" := text "jaeger-thrift" ⊕ done)
              & struct ("ContainerPort" := num 14271 ⊕ "Name" := text "metrics" ⊕ done)
              & end)
        ⊕ "ReadinessProbe"
          := struct (
              "ProbeHandler"
                := struct (
                    "HTTPGet"
                      := struct (
                          "Path" := text "/"
                          ⊕ "Port" := call "intstr.FromInt" (num 14271 & end)
                          ⊕ "Scheme" := constant "corev1.URISchemeHTTP"
                          ⊕ done)
                    ⊕ done)
              ⊕ "InitialDelaySeconds" := num 1
              ⊕ done)
        ⊕ "LivenessProbe"
          := struct (
              "ProbeHandler"
                := struct (
                    "HTTPGet"
                      := struct (
                          "Path" := text "/"
                          ⊕ "Port" := call "intstr.FromInt" (num 14271 & end)
                          ⊕ "Scheme" := constant "corev1.URISchemeHTTP"
                          ⊕ done)
                    ⊕ done)
              ⊕ "FailureThreshold" := num 5
              ⊕ "InitialDelaySeconds" := num 1
              ⊕ done)
        ⊕ "Resources"
          := struct (
              "Requests"
                := struct (
                    "corev1.ResourceCPU" := call "resource.MustParse" (text "32m" & end)
                    ⊕ "corev1.ResourceMemory" := call "resource.MustParse" (text "64Mi" & end)
                    ⊕ done)
              ⊕ "Limits"
                := struct (
                    "corev1.ResourceCPU" := call "resource.MustParse" (text "128m" & end)
                    ⊕ "corev1.ResourceMemory" := call "resource.MustParse" (text "128Mi" & end)
                    ⊕ done)
              ⊕ done)
        ⊕ done))
