-- ===== src/Mage/Operator/Bindings.antt =====
-- magefiles/operator.go: the bindings of the roles, and the metrics service.
use rhobs.Base.{String, text_comparable, nat_comparable, [], ◌∷◌}
use rhobs.Mage.Value.{
  Object, text, num, constant, call, list, struct, string_map, end, ◌&◌, done, ◌:=◌, ◌⊕◌,
}

abbrev pub leader_election_binding : (namespace : String) → Object
leader_election_binding namespace = record {
  api_version = "rbac.authorization.k8s.io/v1";
  kind = "RoleBinding";
  name = "thanos-operator-leader-election-rolebinding";
  namespace = namespace;
  labels =
      ("app.kubernetes.io/component", "rbac")
      ∷ ("app.kubernetes.io/created-by", "thanos-operator")
      ∷ ("app.kubernetes.io/instance", "leader-election-rolebinding")
      ∷ ("app.kubernetes.io/managed-by", "rhobs")
      ∷ ("app.kubernetes.io/name", "rolebinding")
      ∷ ("app.kubernetes.io/part-of", "thanos-operator")
      ∷ [];
  annotations = [];
  body =
      "RoleRef"
        := struct (
            "APIGroup" := text "rbac.authorization.k8s.io"
            ⊕ "Kind" := text "Role"
            ⊕ "Name" := text "thanos-operator-leader-election-role"
            ⊕ done)
      ⊕ "Subjects"
        := list (
            struct (
              "Kind" := text "ServiceAccount"
              ⊕ "Name" := text "thanos-operator-controller-manager"
              ⊕ "Namespace" := text namespace
              ⊕ done)
            & end)
      ⊕ done;
}

abbrev pub metrics_service : (namespace : String) → Object
metrics_service namespace = record {
  api_version = "v1";
  kind = "Service";
  name = "thanos-operator-controller-manager-metrics-service";
  namespace = namespace;
  labels =
      ("app.kubernetes.io/component", "kube-rbac-proxy")
      ∷ ("app.kubernetes.io/created-by", "thanos-operator")
      ∷ ("app.kubernetes.io/instance", "controller-manager-metrics-service")
      ∷ ("app.kubernetes.io/managed-by", "rhobs")
      ∷ ("app.kubernetes.io/name", "service")
      ∷ ("app.kubernetes.io/part-of", "thanos-operator")
      ∷ ("control-plane", "controller-manager")
      ∷ [];
  annotations = [];
  body =
      "Spec"
        := struct (
            "Ports"
              := list (
                  struct (
                    "Name" := text "https"
                    ⊕ "Port" := num 8443
                    ⊕ "Protocol" := constant "corev1.ProtocolTCP"
                    ⊕ "TargetPort" := call "intstr.FromString" (text "https" & end)
                    ⊕ done)
                  & end)
            ⊕ "Selector" := string_map (("control-plane", "controller-manager") ∷ [])
            ⊕ done)
      ⊕ done;
}

abbrev pub manager_binding : (namespace : String) → Object
manager_binding namespace = record {
  api_version = "rbac.authorization.k8s.io/v1";
  kind = "ClusterRoleBinding";
  name = "thanos-operator-manager-rolebinding";
  namespace = namespace;
  labels =
      ("app.kubernetes.io/component", "rbac")
      ∷ ("app.kubernetes.io/created-by", "thanos-operator")
      ∷ ("app.kubernetes.io/instance", "manager-rolebinding")
      ∷ ("app.kubernetes.io/managed-by", "rhobs")
      ∷ ("app.kubernetes.io/name", "clusterrolebinding")
      ∷ ("app.kubernetes.io/part-of", "thanos-operator")
      ∷ [];
  annotations = [];
  body =
      "RoleRef"
        := struct (
            "APIGroup" := text "rbac.authorization.k8s.io"
            ⊕ "Kind" := text "ClusterRole"
            ⊕ "Name" := text "thanos-operator-manager-role"
            ⊕ done)
      ⊕ "Subjects"
        := list (
            struct (
              "Kind" := text "ServiceAccount"
              ⊕ "Name" := text "thanos-operator-controller-manager"
              ⊕ "Namespace" := text namespace
              ⊕ done)
            & end)
      ⊕ done;
}

abbrev pub proxy_binding : (namespace : String) → Object
proxy_binding namespace = record {
  api_version = "rbac.authorization.k8s.io/v1";
  kind = "ClusterRoleBinding";
  name = "thanos-operator-proxy-rolebinding";
  namespace = namespace;
  labels =
      ("app.kubernetes.io/component", "kube-rbac-proxy")
      ∷ ("app.kubernetes.io/created-by", "thanos-operator")
      ∷ ("app.kubernetes.io/instance", "proxy-rolebinding")
      ∷ ("app.kubernetes.io/managed-by", "rhobs")
      ∷ ("app.kubernetes.io/name", "clusterrolebinding")
      ∷ ("app.kubernetes.io/part-of", "thanos-operator")
      ∷ [];
  annotations = [];
  body =
      "RoleRef"
        := struct (
            "APIGroup" := text "rbac.authorization.k8s.io"
            ⊕ "Kind" := text "ClusterRole"
            ⊕ "Name" := text "thanos-operator-proxy-role"
            ⊕ done)
      ⊕ "Subjects"
        := list (
            struct (
              "Kind" := text "ServiceAccount"
              ⊕ "Name" := text "thanos-operator-controller-manager"
              ⊕ "Namespace" := text namespace
              ⊕ done)
            & end)
      ⊕ done;
}
