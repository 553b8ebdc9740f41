-- ===== src/Mage/Operator/Accounts.antt =====
-- magefiles/operator.go: the service account of the operator, the roles of its leader election, and those
-- of its metrics and proxy.
use rhobs.Base.{String, text_comparable, nat_comparable, [], ◌∷◌}
use rhobs.Mage.Value.{Object, text, list, struct, end, ◌&◌, done, ◌:=◌, ◌⊕◌}

abbrev pub service_account : (namespace : String) → Object
service_account namespace = record {
  api_version = "v1";
  kind = "ServiceAccount";
  name = "thanos-operator-controller-manager";
  namespace = namespace;
  labels =
      ("app.kubernetes.io/component", "rbac")
      ∷ ("app.kubernetes.io/created-by", "thanos-operator")
      ∷ ("app.kubernetes.io/instance", "controller-manager-sa")
      ∷ ("app.kubernetes.io/managed-by", "rhobs")
      ∷ ("app.kubernetes.io/name", "serviceaccount")
      ∷ ("app.kubernetes.io/part-of", "thanos-operator")
      ∷ [];
  annotations = [];
  body = done;
}

abbrev pub leader_election_role : (namespace : String) → Object
leader_election_role namespace = record {
  api_version = "rbac.authorization.k8s.io/v1";
  kind = "Role";
  name = "thanos-operator-leader-election-role";
  namespace = namespace;
  labels =
      ("app.kubernetes.io/component", "rbac")
      ∷ ("app.kubernetes.io/created-by", "thanos-operator")
      ∷ ("app.kubernetes.io/instance", "leader-election-role")
      ∷ ("app.kubernetes.io/managed-by", "rhobs")
      ∷ ("app.kubernetes.io/name", "role")
      ∷ ("app.kubernetes.io/part-of", "thanos-operator")
      ∷ [];
  annotations = [];
  body =
      "Rules"
        := list (
            struct (
              "APIGroups" := list (text "" & end)
              ⊕ "Resources" := list (text "configmaps" & end)
              ⊕ "Verbs"
                := list (
                    text "get"
                    & text "list"
                    & text "watch"
                    & text "create"
                    & text "update"
                    & text "patch"
                    & text "delete"
                    & end)
              ⊕ done)
            & struct (
                "APIGroups" := list (text "coordination.k8s.io" & end)
                ⊕ "Resources" := list (text "leases" & end)
                ⊕ "Verbs"
                  := list (
                      text "get"
                      & text "list"
                      & text "watch"
                      & text "create"
                      & text "update"
                      & text "patch"
                      & text "delete"
                      & end)
                ⊕ done)
            & struct (
                "APIGroups" := list (text "" & end)
                ⊕ "Resources" := list (text "events" & end)
                ⊕ "Verbs" := list (text "create" & text "patch" & end)
                ⊕ done)
            & end)
      ⊕ done;
}

abbrev pub metrics_reader_role : Object
metrics_reader_role = record {
  api_version = "rbac.authorization.k8s.io/v1";
  kind = "ClusterRole";
  name = "thanos-operator-metrics-reader";
  namespace = "";
  labels =
      ("app.kubernetes.io/component", "kube-rbac-proxy")
      ∷ ("app.kubernetes.io/created-by", "thanos-operator")
      ∷ ("app.kubernetes.io/instance", "metrics-reader")
      ∷ ("app.kubernetes.io/managed-by", "rhobs")
      ∷ ("app.kubernetes.io/name", "clusterrole")
      ∷ ("app.kubernetes.io/part-of", "thanos-operator")
      ∷ ("rbac.authorization.k8s.io/aggregate-to-view", "true")
      ∷ [];
  annotations = [];
  body =
      "Rules"
        := list (
            struct (
              "NonResourceURLs" := list (text "/metrics" & end)
              ⊕ "Verbs" := list (text "get" & end)
              ⊕ done)
            & end)
      ⊕ done;
}

abbrev pub proxy_role : Object
proxy_role = record {
  api_version = "rbac.authorization.k8s.io/v1";
  kind = "ClusterRole";
  name = "thanos-operator-proxy-role";
  namespace = "";
  labels =
      ("app.kubernetes.io/component", "kube-rbac-proxy")
      ∷ ("app.kubernetes.io/created-by", "thanos-operator")
      ∷ ("app.kubernetes.io/instance", "proxy-role")
      ∷ ("app.kubernetes.io/managed-by", "rhobs")
      ∷ ("app.kubernetes.io/name", "clusterrole")
      ∷ ("app.kubernetes.io/part-of", "thanos-operator")
      ∷ [];
  annotations = [];
  body =
      "Rules"
        := list (
            struct (
              "APIGroups" := list (text "authentication.k8s.io" & end)
              ⊕ "Resources" := list (text "tokenreviews" & end)
              ⊕ "Verbs" := list (text "create" & end)
              ⊕ done)
            & struct (
                "APIGroups" := list (text "authorization.k8s.io" & end)
                ⊕ "Resources" := list (text "subjectaccessreviews" & end)
                ⊕ "Verbs" := list (text "create" & end)
                ⊕ done)
            & end)
      ⊕ done;
}
