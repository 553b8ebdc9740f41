-- ===== src/Mage/Operator/Manager.antt =====
-- magefiles/operator.go: the role of the operator.
use rhobs.Base.{text_comparable, nat_comparable, [], ◌∷◌}
use rhobs.Mage.Value.{Object, text, list, struct, end, ◌&◌, done, ◌:=◌, ◌⊕◌}

abbrev pub manager_role : Object
manager_role = record {
  api_version = "rbac.authorization.k8s.io/v1";
  kind = "ClusterRole";
  name = "thanos-operator-manager-role";
  namespace = "";
  labels =
      ("app.kubernetes.io/component", "rbac")
      ∷ ("app.kubernetes.io/created-by", "thanos-operator")
      ∷ ("app.kubernetes.io/instance", "manager-role")
      ∷ ("app.kubernetes.io/managed-by", "rhobs")
      ∷ ("app.kubernetes.io/name", "clusterrole")
      ∷ ("app.kubernetes.io/part-of", "thanos-operator")
      ∷ ("rbac.authorization.k8s.io/aggregate-to-admin", "true")
      ∷ [];
  annotations = [];
  body =
      "Rules"
        := list (
            struct (
              "APIGroups" := list (text "" & end)
              ⊕ "Resources"
                := list (text "configmaps" & text "serviceaccounts" & text "services" & end)
              ⊕ "Verbs"
                := list (
                    text "create"
                    & text "delete"
                    & text "get"
                    & text "list"
                    & text "patch"
                    & text "update"
                    & text "watch"
                    & end)
              ⊕ done)
            & struct (
                "APIGroups" := list (text "apps" & end)
                ⊕ "Resources" := list (text "deployments" & text "statefulsets" & end)
                ⊕ "Verbs"
                  := list (
                      text "create"
                      & text "delete"
                      & text "get"
                      & text "list"
                      & text "patch"
                      & text "update"
                      & text "watch"
                      & end)
                ⊕ done)
            & struct (
                "APIGroups" := list (text "discovery.k8s.io" & end)
                ⊕ "Resources" := list (text "endpointslices" & end)
                ⊕ "Verbs" := list (text "get" & text "list" & text "watch" & end)
                ⊕ done)
            & struct (
                "APIGroups" := list (text "monitoring.coreos.com" & end)
                ⊕ "Resources" := list (text "prometheusrules" & end)
                ⊕ "Verbs" := list (text "get" & text "list" & text "watch" & end)
                ⊕ done)
            & struct (
                "APIGroups" := list (text "monitoring.coreos.com" & end)
                ⊕ "Resources" := list (text "servicemonitors" & end)
                ⊕ "Verbs"
                  := list (
                      text "create"
                      & text "delete"
                      & text "get"
                      & text "list"
                      & text "patch"
                      & text "update"
                      & text "watch"
                      & end)
                ⊕ done)
            & struct (
                "APIGroups" := list (text "monitoring.thanos.io" & end)
                ⊕ "Resources"
                  := list (
                      text "thanoscompacts"
                      & text "thanosqueries"
                      & text "thanosreceives"
                      & text "thanosrulers"
                      & text "thanosstores"
                      & end)
                ⊕ "Verbs"
                  := list (
                      text "create"
                      & text "delete"
                      & text "get"
                      & text "list"
                      & text "patch"
                      & text "update"
                      & text "watch"
                      & end)
                ⊕ done)
            & struct (
                "APIGroups" := list (text "monitoring.thanos.io" & end)
                ⊕ "Resources"
                  := list (
                      text "thanoscompacts/finalizers"
                      & text "thanosqueries/finalizers"
                      & text "thanosreceives/finalizers"
                      & text "thanosrulers/finalizers"
                      & text "thanosstores/finalizers"
                      & end)
                ⊕ "Verbs" := list (text "update" & end)
                ⊕ done)
            & struct (
                "APIGroups" := list (text "monitoring.thanos.io" & end)
                ⊕ "Resources"
                  := list (
                      text "thanoscompacts/status"
                      & text "thanosqueries/status"
                      & text "thanosreceives/status"
                      & text "thanosrulers/status"
                      & text "thanosstores/status"
                      & end)
                ⊕ "Verbs" := list (text "get" & text "patch" & text "update" & end)
                ⊕ done)
            & struct (
                "APIGroups" := list (text "policy" & end)
                ⊕ "Resources" := list (text "poddisruptionbudgets" & end)
                ⊕ "Verbs"
                  := list (
                      text "create"
                      & text "get"
                      & text "list"
                      & text "update"
                      & text "watch"
                      & text "delete"
                      & end)
                ⊕ done)
            & end)
      ⊕ done;
}
