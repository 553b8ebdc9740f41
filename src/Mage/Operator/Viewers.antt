-- ===== src/Mage/Operator/Viewers.antt =====
-- magefiles/operator.go: the roles that view the custom resources.
use rhobs.Base.{text_comparable, nat_comparable, [], ◌∷◌}
use rhobs.Mage.Value.{Object, text, list, struct, end, ◌&◌, done, ◌:=◌, ◌⊕◌}

abbrev pub query_viewer_role : Object
query_viewer_role = record {
  api_version = "rbac.authorization.k8s.io/v1";
  kind = "ClusterRole";
  name = "thanos-operator-thanosquery-viewer-role";
  namespace = "";
  labels =
      ("app.kubernetes.io/component", "rbac")
      ∷ ("app.kubernetes.io/created-by", "thanos-operator")
      ∷ ("app.kubernetes.io/instance", "thanosquery-viewer-role")
      ∷ ("app.kubernetes.io/managed-by", "rhobs")
      ∷ ("app.kubernetes.io/name", "clusterrole")
      ∷ ("app.kubernetes.io/part-of", "thanos-operator")
      ∷ ("rbac.authorization.k8s.io/aggregate-to-view", "true")
      ∷ [];
  annotations = [];
  body =
      "Rules"
        := list (
            struct (
              "APIGroups" := list (text "monitoring.thanos.io" & end)
              ⊕ "Resources" := list (text "thanosqueries" & end)
              ⊕ "Verbs" := list (text "get" & text "list" & text "watch" & end)
              ⊕ done)
            & struct (
                "APIGroups" := list (text "monitoring.thanos.io" & end)
                ⊕ "Resources" := list (text "thanosqueries/status" & end)
                ⊕ "Verbs" := list (text "get" & end)
                ⊕ done)
            & end)
      ⊕ done;
}

abbrev pub compact_viewer_role : Object
compact_viewer_role = record {
  api_version = "rbac.authorization.k8s.io/v1";
  kind = "ClusterRole";
  name = "thanos-operator-thanoscompact-viewer-role";
  namespace = "";
  labels =
      ("app.kubernetes.io/component", "rbac")
      ∷ ("app.kubernetes.io/created-by", "thanos-operator")
      ∷ ("app.kubernetes.io/instance", "thanoscompact-viewer-role")
      ∷ ("app.kubernetes.io/managed-by", "rhobs")
      ∷ ("app.kubernetes.io/name", "clusterrole")
      ∷ ("app.kubernetes.io/part-of", "thanos-operator")
      ∷ ("rbac.authorization.k8s.io/aggregate-to-view", "true")
      ∷ [];
  annotations = [];
  body =
      "Rules"
        := list (
            struct (
              "APIGroups" := list (text "monitoring.thanos.io" & end)
              ⊕ "Resources" := list (text "thanoscompacts" & end)
              ⊕ "Verbs" := list (text "get" & text "list" & text "watch" & end)
              ⊕ done)
            & struct (
                "APIGroups" := list (text "monitoring.thanos.io" & end)
                ⊕ "Resources" := list (text "thanoscompacts/status" & end)
                ⊕ "Verbs" := list (text "get" & end)
                ⊕ done)
            & end)
      ⊕ done;
}

abbrev pub receive_viewer_role : Object
receive_viewer_role = record {
  api_version = "rbac.authorization.k8s.io/v1";
  kind = "ClusterRole";
  name = "thanos-operator-thanosreceive-viewer-role";
  namespace = "";
  labels =
      ("app.kubernetes.io/component", "rbac")
      ∷ ("app.kubernetes.io/created-by", "thanos-operator")
      ∷ ("app.kubernetes.io/instance", "thanosreceive-viewer-role")
      ∷ ("app.kubernetes.io/managed-by", "rhobs")
      ∷ ("app.kubernetes.io/name", "clusterrole")
      ∷ ("app.kubernetes.io/part-of", "thanos-operator")
      ∷ ("rbac.authorization.k8s.io/aggregate-to-view", "true")
      ∷ [];
  annotations = [];
  body =
      "Rules"
        := list (
            struct (
              "APIGroups" := list (text "monitoring.thanos.io" & end)
              ⊕ "Resources" := list (text "thanosreceives" & end)
              ⊕ "Verbs" := list (text "get" & text "list" & text "watch" & end)
              ⊕ done)
            & struct (
                "APIGroups" := list (text "monitoring.thanos.io" & end)
                ⊕ "Resources" := list (text "thanosreceives/status" & end)
                ⊕ "Verbs" := list (text "get" & end)
                ⊕ done)
            & end)
      ⊕ done;
}

abbrev pub ruler_viewer_role : Object
ruler_viewer_role = record {
  api_version = "rbac.authorization.k8s.io/v1";
  kind = "ClusterRole";
  name = "thanos-operator-thanosruler-viewer-role";
  namespace = "";
  labels =
      ("app.kubernetes.io/component", "rbac")
      ∷ ("app.kubernetes.io/created-by", "thanos-operator")
      ∷ ("app.kubernetes.io/instance", "thanosruler-viewer-role")
      ∷ ("app.kubernetes.io/managed-by", "rhobs")
      ∷ ("app.kubernetes.io/name", "clusterrole")
      ∷ ("app.kubernetes.io/part-of", "thanos-operator")
      ∷ ("rbac.authorization.k8s.io/aggregate-to-view", "true")
      ∷ [];
  annotations = [];
  body =
      "Rules"
        := list (
            struct (
              "APIGroups" := list (text "monitoring.thanos.io" & end)
              ⊕ "Resources" := list (text "thanosrulers" & end)
              ⊕ "Verbs" := list (text "get" & text "list" & text "watch" & end)
              ⊕ done)
            & struct (
                "APIGroups" := list (text "monitoring.thanos.io" & end)
                ⊕ "Resources" := list (text "thanosrulers/status" & end)
                ⊕ "Verbs" := list (text "get" & end)
                ⊕ done)
            & end)
      ⊕ done;
}

abbrev pub store_viewer_role : Object
store_viewer_role = record {
  api_version = "rbac.authorization.k8s.io/v1";
  kind = "ClusterRole";
  name = "thanos-operator-thanosstore-viewer-role";
  namespace = "";
  labels =
      ("app.kubernetes.io/component", "rbac")
      ∷ ("app.kubernetes.io/created-by", "thanos-operator")
      ∷ ("app.kubernetes.io/instance", "thanosstore-viewer-role")
      ∷ ("app.kubernetes.io/managed-by", "rhobs")
      ∷ ("app.kubernetes.io/name", "clusterrole")
      ∷ ("app.kubernetes.io/part-of", "thanos-operator")
      ∷ ("rbac.authorization.k8s.io/aggregate-to-view", "true")
      ∷ [];
  annotations = [];
  body =
      "Rules"
        := list (
            struct (
              "APIGroups" := list (text "monitoring.thanos.io" & end)
              ⊕ "Resources" := list (text "thanosstores" & end)
              ⊕ "Verbs" := list (text "get" & text "list" & text "watch" & end)
              ⊕ done)
            & struct (
                "APIGroups" := list (text "monitoring.thanos.io" & end)
                ⊕ "Resources" := list (text "thanosstores/status" & end)
                ⊕ "Verbs" := list (text "get" & end)
                ⊕ done)
            & end)
      ⊕ done;
}
