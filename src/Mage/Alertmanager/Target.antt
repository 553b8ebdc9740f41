-- ===== src/Mage/Alertmanager/Target.antt =====
-- magefiles/alertmanager.go: what is changed in the manifests, and the targets; with the handling of
-- service monitors of lib.go.
use rhobs.Base.{
  String, ◌<>◌, ◌==◌, text_comparable, nat_comparable, Bool, none, some, List, [], ◌∷◌, ◌++◌, map,
}
use rhobs.Base.Dict.{Dict}
use rhobs.Base.Outcome.{Outcome, ok, ◌>>=◌}
use rhobs.Mage.Value.{Fields, text, num, constant, call, list, struct, end, ◌&◌, done, ◌:=◌, ◌⊕◌}
use rhobs.Mage.Library.{append_at, set_at}
use rhobs.Mage.Heap.{Ref, Heap, read, make_map, assign}
use rhobs.Mage.Objects.{get_and_remove_object, sort_template_params}
use rhobs.Mage.OperatorCr.{File, Contents, template, generator, stage_namespace}
use rhobs.Mage.TemplateYaml.{TemplateYaml, new_std_template_yaml, with_log_level}
use rhobs.Mage.Gateway.{alert_manager_name}
use rhobs.Mage.Gateway.Monitor.{
  openshift_customer_monitoring_label, openshift_cluster_monitoring_label_value,
  openshift_customer_monitoring_namespace,
}
use rhobs.Mage.Alertmanager.{
  Manifest, encode, AlertManagerOptions, AlertManagerStatefulSet, alertmanager_tls_secret,
  default_manifest_options, alert_manager_options, alertmanager_kubernetes,
}

abbrev pub alertmanager_template : String
alertmanager_template = "alertmanager-template.yaml"

abbrev pub prod_namespace : String
prod_namespace = "rhobs-production"

abbrev pub service_monitor_template : String
service_monitor_template = "service-monitor-template.yaml"

abbrev pub serving_cert_secret_name_annotation : String
serving_cert_secret_name_annotation = "service.alpha.openshift.io/serving-cert-secret-name"

abbrev pub service_redirect_annotation : String
service_redirect_annotation = "serviceaccounts.openshift.io/oauth-redirectreference.application"

-- What is encoded once the maps are final.
abbrev pub Encoder : Type 0
Encoder = Heap → Contents

-- The service monitor after `postProcessServiceMonitor`.
abbrev pub processed_monitor : Manifest → (namespace_selector : String) → Manifest
processed_monitor service_monitor namespace_selector = record service_monitor {
  namespace = openshift_customer_monitoring_namespace;
  body =
      set_at ("Spec" ∷ "NamespaceSelector" ∷ "MatchNames" ∷ [])
        (list (text namespace_selector & end)) service_monitor.body;
}

abbrev pub monitor_contents : Manifest → (namespace_selector : String) → Encoder
monitor_contents service_monitor namespace_selector h =
    template (service_monitor.name <> ("-service-monitor-" <> namespace_selector))
      (encode h (processed_monitor service_monitor namespace_selector) ∷ []) []

unfoldable pub post_process_service_monitor :
    Manifest → (namespace_selector : String) → Heap → Outcome (Encoder × Heap)
unfolding assign set_at
post_process_service_monitor service_monitor namespace_selector h = do
  g ←
      assign service_monitor.labels openshift_customer_monitoring_label
        openshift_cluster_monitoring_label_value h
  ok (monitor_contents service_monitor namespace_selector, g)

abbrev pub https_port : Fields
https_port =
    "Name" := text "https"
    ⊕ "Port" := num 8443
    ⊕ "TargetPort" := call "intstr.FromInt32" (num 8443 & end)
    ⊕ done

abbrev pub with_https : Manifest → Manifest
with_https service = record service {
  body = append_at ("Spec" ∷ "Ports" ∷ []) (struct https_port) service.body;
}

abbrev pub redirect : String
redirect =
    "{\"kind\":\"OAuthRedirectReference\",\"apiVersion\":\"v1\",\"reference\":{\"kind\":\"Route\",\"name\":\""
    <> (alert_manager_name <> "\"}}")

-- `if m == nil { m = map[string]string{} }`
abbrev pub map_if_nil : Ref → Heap → Ref × Heap
map_if_nil none h = make_map [] h
map_if_nil (some a) h = (some a, h)

-- `maps.Clone`
abbrev pub clone : Ref → Heap → Ref × Heap
clone none h = (none, h)
clone (some a) h = make_map (read (some a) h) h

abbrev pub route : (namespace : String) (labels annotations : Ref) → Manifest
route namespace labels annotations = record {
  api_version = "route.openshift.io/v1";
  kind = "Route";
  name = alert_manager_name;
  namespace = namespace;
  labels = labels;
  annotations = annotations;
  body =
      "Spec"
        := struct (
            "Port" := struct ("TargetPort" := call "intstr.FromString" (text "https" & end) ⊕ done)
            ⊕ "TLS"
              := struct (
                  "Termination" := constant "routev1.TLSTerminationReencrypt"
                  ⊕ "InsecureEdgeTerminationPolicy"
                    := constant "routev1.InsecureEdgeTerminationPolicyRedirect"
                  ⊕ done)
            ⊕ "To" := struct ("Kind" := text "Service" ⊕ "Name" := text alert_manager_name ⊕ done)
            ⊕ done)
      ⊕ done;
}

abbrev pub alert_encoder : TemplateYaml
unfolding new_std_template_yaml with_log_level
alert_encoder = with_log_level (new_std_template_yaml alert_manager_name "ALERTMANAGER")

abbrev pub issuer_annotations : Dict String String
issuer_annotations =
    ("cert-manager.io/issuer-kind", "ClusterIssuer")
    ∷ ("cert-manager.io/issuer-name", "letsencrypt-prod-http")
    ∷ []

-- The parameters before they are sorted.
abbrev pub alertmanager_params : List (String × Fields)
alertmanager_params =
    (
      "OAUTH_PROXY_COOKIE_SECRET",
      "Generate" := text "expression" ⊕ "From" := text "[a-zA-Z0-9]{40}" ⊕ done,
    )
    ∷ alert_encoder.params

abbrev pub named : String × Fields → Fields
named p = "Name" := text p.0 ⊕ p.1

abbrev pub alertmanager_contents : List Manifest → Encoder
unfolding sort_template_params
alertmanager_contents manifests h =
    template alert_manager_name (map (encode h) manifests)
      (map named (sort_template_params alertmanager_params))

-- An object, and the objects before and after it in the list that it was found in.
pub record Found : Type 0 where
  pub before : List Manifest
  pub object : Manifest
  pub after : List Manifest

-- The list with another state of the object.
abbrev pub put : Found → Manifest → List Manifest
put f o = f.before ++ o ∷ f.after

abbrev pub get_name : Manifest → String
get_name o = o.name

abbrev pub is_service_monitor : Manifest → Bool
is_service_monitor o = o.kind == "ServiceMonitor"

-- What is written to the files of a target.
pub record Generated : Type 0 where
  pub main : File
  pub replaced : TemplateYaml
  pub monitor : File

-- `kghelpers.GetObject`, and its list of objects.
module _ (get_object : (kind name : String) → List Manifest → Outcome Found) where
  unfoldable pub alertmanager_post_process :
      List Manifest → (namespace : String) → Heap → Outcome (List Manifest × Heap)
  unfolding assign make_map read append_at
  alertmanager_post_process manifests namespace h = do
    service ← get_object "Service" alert_manager_name manifests
    h1 ←
        assign service.object.annotations serving_cert_secret_name_annotation
          alertmanager_tls_secret h
    account ← get_object "ServiceAccount" "" (put service (with_https service.object))
    let (annotations, h2) = map_if_nil account.object.annotations h1
    h3 ← assign annotations service_redirect_annotation redirect h2
    let manifests = put account (record account.object { annotations = annotations })
    sts ← get_object "StatefulSet" "" manifests
    let (labels, h4) = clone sts.object.labels h3
    let (route_annotations, h5) = make_map issuer_annotations h4
    ok (manifests ++ (route namespace labels route_annotations ∷ []), h5)

  -- The two files; they are encoded at the end, by `Generate`.
  unfoldable pub build_alertmanager :
      List Manifest → (namespace : String) → (dir : List String) → Heap → Outcome Generated
  build_alertmanager manifests namespace dir h = do
    (sm, manifests) ←
        get_and_remove_object get_name is_service_monitor "*v1.ServiceMonitor" "" manifests
    (sm_enc, h1) ← post_process_service_monitor sm namespace h
    (manifests, h2) ← alertmanager_post_process manifests namespace h1
    ok (record {
      main = record {
        dir = dir;
        name = alertmanager_template;
        contents = alertmanager_contents manifests h2;
      };
      replaced = alert_encoder;
      monitor = record { dir = dir; name = service_monitor_template; contents = sm_enc h2 };
    })

  module _ (default_options : AlertManagerOptions)
      (new_alert_manager : AlertManagerOptions
        → (namespace image_tag : String) → AlertManagerStatefulSet)
      (objects : AlertManagerOptions → AlertManagerStatefulSet → Heap → List Manifest × Heap) where
    -- `Alertmanager` of an environment.
    unfoldable pub alertmanager : (environment namespace : String) → Heap → Outcome Generated
    alertmanager environment namespace h =
        let (opts, sts) =
          alertmanager_kubernetes new_alert_manager (alert_manager_options default_options)
            (default_manifest_options namespace) in
        let (manifests, g) = objects opts sts h in
        build_alertmanager manifests namespace (generator environment alert_manager_name) g

    unfoldable pub stage_alertmanager : Heap → Outcome Generated
    unfolding alertmanager
    stage_alertmanager h = alertmanager "staging" stage_namespace h

    unfoldable pub production_alertmanager : Heap → Outcome Generated
    unfolding alertmanager
    production_alertmanager h = alertmanager "production" prod_namespace h
