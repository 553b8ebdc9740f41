-- ===== src/Mage/Operator/Editors.antt =====
-- magefiles/operator.go: the roles that edit the custom resources.
use rhobs.Base.{text_comparable, nat_comparable, [], ◌∷◌}
use rhobs.Mage.Value.{Object, text, list, struct, end, ◌&◌, done, ◌:=◌, ◌⊕◌}

abbrev pub query_editor_role : Object
query_editor_role = record {
  api_version = "rbac.authorization.k8s.io/v1";
  kind = "ClusterRole";
  name = "thanos-operator-thanosquery-editor-role";
  namespace = "";
  labels =
      ("app.kubernetes.io/component", "rbac")
      ∷ ("app.kubernetes.io/created-by", "thanos-operator")
      ∷ ("app.kubernetes.io/instance", "thanosquery-editor-role")
      ∷ ("app.kubernetes.io/managed-by", "rhobs")
      ∷ ("app.kubernetes.io/name", "clusterrole")
      ∷ ("app.kubernetes.io/part-of", "thanos-operator")
      ∷ ("rbac.authorization.k8s.io/aggregate-to-edit", "true")
      ∷ [];
  annotations = [];
  body =
      "Rules"
        := list (
            struct (
              "APIGroups" := list (text "monitoring.thanos.io" & end)
              ⊕ "Resources" := list (text "thanosqueries" & end)
              ⊕ "Verbs"
                := list (
                    text "create"
                    & text "delete"
                    & text "get"
                    & text "list"
                    & text "patch"
                    & text "update"
                    & text "watch"
                    & end)
              ⊕ done)
            & struct (
                "APIGroups" := list (text "monitoring.thanos.io" & end)
                ⊕ "Resources" := list (text "thanosqueries/status" & end)
                ⊕ "Verbs" := list (text "get" & end)
                ⊕ done)
            & end)
      ⊕ done;
}

abbrev pub compact_editor_role : Object
compact_editor_role = record {
  api_version = "rbac.authorization.k8s.io/v1";
  kind = "ClusterRole";
  name = "thanos-operator-thanoscompact-editor-role";
  namespace = "";
  labels =
      ("app.kubernetes.io/component", "rbac")
      ∷ ("app.kubernetes.io/created-by", "thanos-operator")
      ∷ ("app.kubernetes.io/instance", "thanoscompact-editor-role")
      ∷ ("app.kubernetes.io/managed-by", "rhobs")
      ∷ ("app.kubernetes.io/name", "clusterrole")
      ∷ ("app.kubernetes.io/part-of", "thanos-operator")
      ∷ ("rbac.authorization.k8s.io/aggregate-to-edit", "true")
      ∷ [];
  annotations = [];
  body =
      "Rules"
        := list (
            struct (
              "APIGroups" := list (text "monitoring.thanos.io" & end)
              ⊕ "Resources" := list (text "thanoscompacts" & end)
              ⊕ "Verbs"
                := list (
                    text "create"
                    & text "delete"
                    & text "get"
                    & text "list"
                    & text "patch"
                    & text "update"
                    & text "watch"
                    & end)
              ⊕ done)
            & struct (
                "APIGroups" := list (text "monitoring.thanos.io" & end)
                ⊕ "Resources" := list (text "thanoscompacts/status" & end)
                ⊕ "Verbs" := list (text "get" & end)
                ⊕ done)
            & end)
      ⊕ done;
}

abbrev pub receive_editor_role : Object
receive_editor_role = record {
  api_version = "rbac.authorization.k8s.io/v1";
  kind = "ClusterRole";
  name = "thanos-operator-thanosreceive-editor-role";
  namespace = "";
  labels =
      ("app.kubernetes.io/component", "rbac")
      ∷ ("app.kubernetes.io/created-by", "thanos-operator")
      ∷ ("app.kubernetes.io/instance", "thanosreceive-editor-role")
      ∷ ("app.kubernetes.io/managed-by", "rhobs")
      ∷ ("app.kubernetes.io/name", "clusterrole")
      ∷ ("app.kubernetes.io/part-of", "thanos-operator")
      ∷ ("rbac.authorization.k8s.io/aggregate-to-edit", "true")
      ∷ [];
  annotations = [];
  body =
      "Rules"
        := list (
            struct (
              "APIGroups" := list (text "monitoring.thanos.io" & end)
              ⊕ "Resources" := list (text "thanosreceives" & end)
              ⊕ "Verbs"
                := list (
                    text "create"
                    & text "delete"
                    & text "get"
                    & text "list"
                    & text "patch"
                    & text "update"
                    & text "watch"
                    & end)
              ⊕ done)
            & struct (
                "APIGroups" := list (text "monitoring.thanos.io" & end)
                ⊕ "Resources" := list (text "thanosreceives/status" & end)
                ⊕ "Verbs" := list (text "get" & end)
                ⊕ done)
            & end)
      ⊕ done;
}

abbrev pub ruler_editor_role : Object
ruler_editor_role = record {
  api_version = "rbac.authorization.k8s.io/v1";
  kind = "ClusterRole";
  name = "thanos-operator-thanosruler-editor-role";
  namespace = "";
  labels =
      ("app.kubernetes.io/component", "rbac")
      ∷ ("app.kubernetes.io/created-by", "thanos-operator")
      ∷ ("app.kubernetes.io/instance", "thanosruler-editor-role")
      ∷ ("app.kubernetes.io/managed-by", "rhobs")
      ∷ ("app.kubernetes.io/name", "clusterrole")
      ∷ ("app.kubernetes.io/part-of", "thanos-operator")
      ∷ ("rbac.authorization.k8s.io/aggregate-to-edit", "true")
      ∷ [];
  annotations = [];
  body =
      "Rules"
        := list (
            struct (
              "APIGroups" := list (text "monitoring.thanos.io" & end)
              ⊕ "Resources" := list (text "thanosrulers" & end)
              ⊕ "Verbs"
                := list (
                    text "create"
                    & text "delete"
                    & text "get"
                    & text "list"
                    & text "patch"
                    & text "update"
                    & text "watch"
                    & end)
              ⊕ done)
            & struct (
                "APIGroups" := list (text "monitoring.thanos.io" & end)
                ⊕ "Resources" := list (text "thanosrulers/status" & end)
                ⊕ "Verbs" := list (text "get" & end)
                ⊕ done)
            & end)
      ⊕ done;
}

abbrev pub store_editor_role : Object
store_editor_role = record {
  api_version = "rbac.authorization.k8s.io/v1";
  kind = "ClusterRole";
  name = "thanos-operator-thanosstore-editor-role";
  namespace = "";
  labels =
      ("app.kubernetes.io/component", "rbac")
      ∷ ("app.kubernetes.io/created-by", "thanos-operator")
      ∷ ("app.kubernetes.io/instance", "thanosstore-editor-role")
      ∷ ("app.kubernetes.io/managed-by", "rhobs")
      ∷ ("app.kubernetes.io/name", "clusterrole")
      ∷ ("app.kubernetes.io/part-of", "thanos-operator")
      ∷ ("rbac.authorization.k8s.io/aggregate-to-edit", "true")
      ∷ [];
  annotations = [];
  body =
      "Rules"
        := list (
            struct (
              "APIGroups" := list (text "monitoring.thanos.io" & end)
              ⊕ "Resources" := list (text "thanosstores" & end)
              ⊕ "Verbs"
                := list (
                    text "create"
                    & text "delete"
                    & text "get"
                    & text "list"
                    & text "patch"
                    & text "update"
                    & text "watch"
                    & end)
              ⊕ done)
            & struct (
                "APIGroups" := list (text "monitoring.thanos.io" & end)
                ⊕ "Resources" := list (text "thanosstores/status" & end)
                ⊕ "Verbs" := list (text "get" & end)
                ⊕ done)
            & end)
      ⊕ done;
}
