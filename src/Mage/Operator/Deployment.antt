-- ===== src/Mage/Operator/Deployment.antt =====
-- magefiles/operator.go: the deployment of the operator.
use rhobs.Base.{String, true, false, text_comparable, nat_comparable, [], ◌∷◌}
use rhobs.Base.Outcome.{Outcome, ok, ◌>>=◌}
use rhobs.Mage.Value.{
  Value, Object, text, num, flag, constant, call, list, struct, string_map, end, ◌&◌, done, ◌:=◌,
  ◌⊕◌,
}
use rhobs.Mage.Params.{TemplateMaps, template_fn}

abbrev pub deployment :
    (namespace image : String)
    → (resources : Value) → (manager_image : String) → (manager_resources : Value) → Object
deployment namespace image resources manager_image manager_resources = record {
  api_version = "apps/v1";
  kind = "Deployment";
  name = "thanos-operator-controller-manager";
  namespace = namespace;
  labels =
      ("app.kubernetes.io/component", "manager")
      ∷ ("app.kubernetes.io/created-by", "thanos-operator")
      ∷ ("app.kubernetes.io/instance", "controller-manager")
      ∷ ("app.kubernetes.io/managed-by", "rhobs")
      ∷ ("app.kubernetes.io/name", "deployment")
      ∷ ("app.kubernetes.io/part-of", "thanos-operator")
      ∷ ("control-plane", "controller-manager")
      ∷ [];
  annotations = [];
  body =
      "Spec"
        := struct (
            "Replicas" := num 1
            ⊕ "RevisionHistoryLimit" := num 10
            ⊕ "Selector"
              := struct (
                  "MatchLabels" := string_map (("control-plane", "controller-manager") ∷ []) ⊕ done)
            ⊕ "Strategy"
              := struct (
                  "Type" := constant "appsv1.RollingUpdateDeploymentStrategyType"
                  ⊕ "RollingUpdate"
                    := struct (
                        "MaxSurge"
                          := struct
                              ("Type" := constant "intstr.String" ⊕ "StrVal" := text "25%" ⊕ done)
                        ⊕ "MaxUnavailable"
                          := struct
                              ("Type" := constant "intstr.String" ⊕ "StrVal" := text "25%" ⊕ done)
                        ⊕ done)
                  ⊕ done)
            ⊕ "Template"
              := struct (
                  "ObjectMeta"
                    := struct (
                        "Labels" := string_map (("control-plane", "controller-manager") ∷ [])
                        ⊕ "Annotations"
                          := string_map
                              (("kubectl.kubernetes.io/default-container", "manager") ∷ [])
                        ⊕ done)
                  ⊕ "Spec"
                    := struct (
                        "SecurityContext" := struct ("RunAsNonRoot" := flag true ⊕ done)
                        ⊕ "Containers"
                          := list (
                              struct (
                                "Name" := text "kube-rbac-proxy"
                                ⊕ "Image" := text image
                                ⊕ "ImagePullPolicy" := constant "corev1.PullIfNotPresent"
                                ⊕ "Args"
                                  := list (
                                      text "--secure-listen-address=0.0.0.0:8443"
                                      & text "--upstream=http://127.0.0.1:8080/"
                                      & text "--logtostderr=true"
                                      & text "--v=0"
                                      & end)
                                ⊕ "Ports"
                                  := list (
                                      struct (
                                        "ContainerPort" := num 8443
                                        ⊕ "Name" := text "https"
                                        ⊕ "Protocol" := constant "corev1.ProtocolTCP"
                                        ⊕ done)
                                      & end)
                                ⊕ "Resources" := resources
                                ⊕ "SecurityContext"
                                  := struct (
                                      "AllowPrivilegeEscalation" := flag false
                                      ⊕ "Capabilities"
                                        := struct ("Drop" := list (text "ALL" & end) ⊕ done)
                                      ⊕ done)
                                ⊕ done)
                              & struct (
                                  "Name" := text "manager"
                                  ⊕ "Image" := text manager_image
                                  ⊕ "ImagePullPolicy" := constant "corev1.PullIfNotPresent"
                                  ⊕ "Command" := list (text "/manager" & end)
                                  ⊕ "Args"
                                    := list (
                                        text "--health-probe-bind-address=:8081"
                                        & text "--metrics-bind-address=127.0.0.1:8080"
                                        & text "--leader-elect"
                                        & text "--zap-encoder=console"
                                        & text "--zap-log-level=debug"
                                        & end)
                                  ⊕ "LivenessProbe"
                                    := struct (
                                        "ProbeHandler"
                                          := struct (
                                              "HTTPGet"
                                                := struct (
                                                    "Path" := text "/healthz"
                                                    ⊕ "Port"
                                                      := call "intstr.FromInt" (num 8081 & end)
                                                    ⊕ "Scheme" := constant "corev1.URISchemeHTTP"
                                                    ⊕ done)
                                              ⊕ done)
                                        ⊕ "InitialDelaySeconds" := num 15
                                        ⊕ "PeriodSeconds" := num 20
                                        ⊕ "TimeoutSeconds" := num 1
                                        ⊕ "FailureThreshold" := num 3
                                        ⊕ "SuccessThreshold" := num 1
                                        ⊕ done)
                                  ⊕ "ReadinessProbe"
                                    := struct (
                                        "ProbeHandler"
                                          := struct (
                                              "HTTPGet"
                                                := struct (
                                                    "Path" := text "/readyz"
                                                    ⊕ "Port"
                                                      := call "intstr.FromInt" (num 8081 & end)
                                                    ⊕ "Scheme" := constant "corev1.URISchemeHTTP"
                                                    ⊕ done)
                                              ⊕ done)
                                        ⊕ "InitialDelaySeconds" := num 5
                                        ⊕ "PeriodSeconds" := num 10
                                        ⊕ "TimeoutSeconds" := num 1
                                        ⊕ "FailureThreshold" := num 3
                                        ⊕ "SuccessThreshold" := num 1
                                        ⊕ done)
                                  ⊕ "Resources" := manager_resources
                                  ⊕ "SecurityContext"
                                    := struct (
                                        "AllowPrivilegeEscalation" := flag false
                                        ⊕ "Capabilities"
                                          := struct ("Drop" := list (text "ALL" & end) ⊕ done)
                                        ⊕ done)
                                  ⊕ done)
                              & end)
                        ⊕ "ServiceAccountName" := text "thanos-operator-controller-manager"
                        ⊕ "TerminationGracePeriodSeconds" := num 10
                        ⊕ done)
                  ⊕ done)
            ⊕ done)
      ⊕ done;
}

unfoldable pub operator_deployment : (namespace : String) → TemplateMaps → Outcome Object
operator_deployment namespace m = do
  image ← template_fn "KUBE_RBAC_PROXY" m.images
  resources ← template_fn "KUBE_RBAC_PROXY" m.resource_requirements
  manager_image ← template_fn "THANOS_OPERATOR" m.images
  manager_resources ← template_fn "MANAGER" m.resource_requirements
  ok (deployment namespace image resources manager_image manager_resources)
