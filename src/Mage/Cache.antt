-- ===== src/Mage/Cache.antt =====
-- magefiles/cache.go: the memcached of the gateway. The objects refer to one map of labels; an object
-- that is not encoded yet is a function of the maps.
pub mod Labels
use rhobs.Base.{
  ℕ, String, ◌<>◌, Bool, true, false, not, ◌==◌, ltb, text_comparable, if◌then◌else◌, List, [], ◌∷◌,
  ◌++◌, map,
}
use rhobs.Base.Dict.{Dict}
use rhobs.Base.Integer.{ℤ, pos, is_positive, show_int}
use rhobs.Base.Outcome.{Outcome, ok, panic, ◌>>=◌}
use rhobs.Mage.Value.{
  Value, Values, Fields, Object, text, num, flag, constant, call, list, struct, string_map, end,
  ◌&◌, done, ◌:=◌, ◌⊕◌,
}
use rhobs.Mage.Params.{TemplateMaps, index, api_cache, memcached_exporter}
use rhobs.Mage.Params.Resources.{stage_maps}
use rhobs.Mage.Heap.{Ref, Heap, read, make_map, assign, deep_copy_map}
use rhobs.Mage.OperatorCr.{File, template, generator}

abbrev pub cache_name : String
cache_name = "memcached"

abbrev pub gateway_cache_name : String
gateway_cache_name = "api-memcached"

pub record MemcachedFlags : Type 0 where
  pub memory : ℤ
  pub max_connections : ℤ
  pub max_item_size : String
  pub min_item_size : String
  pub verbose : Bool
  pub stats_interval : String

pub record MemcachedConfig : Type 0 where
  pub name : String
  pub namespace : String
  pub flags : MemcachedFlags
  pub labels : Ref
  pub replicas : ℕ
  pub memcached_image : String
  pub exporter_image : String
  pub service_account : String

-- `if b { args = append(args, arg) }`
abbrev append_if : Bool → String → List String → List String
append_if b arg args = if b then args ++ (arg ∷ []) else args

unfoldable pub to_args : MemcachedFlags → List String
unfolding show_int
to_args f = append_if (not (f.min_item_size == "")) ("-n " <> f.min_item_size) (
    append_if (not (f.max_item_size == "")) ("-I " <> f.max_item_size) (
      append_if f.verbose "-v" (
        append_if (not (f.stats_interval == "")) ("-I " <> f.stats_interval) (
          append_if (is_positive f.max_connections) ("-c " <> show_int f.max_connections)
            (append_if (is_positive f.memory) ("-m " <> show_int f.memory) [])))))

abbrev pub gateway_cache_labels : TemplateMaps → Dict String String
gateway_cache_labels m =
    ("app.kubernetes.io/component", gateway_cache_name)
    ∷ ("app.kubernetes.io/instance", "rhobs")
    ∷ ("app.kubernetes.io/name", "memcached")
    ∷ ("app.kubernetes.io/part-of", "observatorium")
    ∷ ("app.kubernetes.io/version", (index api_cache m.versions ""))
    ∷ []

unfoldable pub gateway_cache : TemplateMaps → Heap → MemcachedConfig × Heap
unfolding make_map
gateway_cache m h =
    let (labels, h') = make_map (gateway_cache_labels m) h in
    (
      record {
        name = gateway_cache_name;
        namespace = "rhobs-stage";
        flags = record {
          memory = pos 2048;
          max_connections = pos 3072;
          max_item_size = "";
          min_item_size = "";
          verbose = true;
          stats_interval = "5m";
        };
        labels = labels;
        replicas = 1;
        memcached_image = index api_cache m.images "";
        exporter_image = index memcached_exporter m.images "";
        service_account = gateway_cache_name;
      },
      h',
    )

abbrev texts : List String → Values
texts [] = end
texts (s ∷ ss) = text s & texts ss

abbrev memcached_container : MemcachedConfig → TemplateMaps → Value
memcached_container config m = struct (
    "Name" := text "memcached"
    ⊕ "Image" := text config.memcached_image
    ⊕ "Args" := (list (texts (to_args config.flags)))
    ⊕ "Ports"
      := list (
          struct (
            "Name" := text "client"
            ⊕ "ContainerPort" := num 11211
            ⊕ "Protocol" := constant "corev1.ProtocolTCP"
            ⊕ done)
          & end)
    ⊕ "Resources" := (index api_cache m.resource_requirements (struct done))
    ⊕ "TerminationMessagePolicy" := constant "corev1.TerminationMessageFallbackToLogsOnError"
    ⊕ "ImagePullPolicy" := constant "corev1.PullIfNotPresent"
    ⊕ done)

abbrev exporter_container : MemcachedConfig → TemplateMaps → Value
exporter_container config m = struct (
    "Name" := text "exporter"
    ⊕ "Image" := text config.exporter_image
    ⊕ "Args"
      := list (
          text "--memcached.address=localhost:11211"
          & text "--web.listen-address=0.0.0.0:9150"
          & end)
    ⊕ "Ports"
      := list (
          struct (
            "Name" := text "metrics"
            ⊕ "ContainerPort" := num 9150
            ⊕ "Protocol" := constant "corev1.ProtocolTCP"
            ⊕ done)
          & end)
    ⊕ "Resources" := (index memcached_exporter m.resource_requirements (struct done))
    ⊕ "ImagePullPolicy" := constant "corev1.PullIfNotPresent"
    ⊕ done)

unfoldable pub memcached_stateful_set : MemcachedConfig → TemplateMaps → Heap → Object
unfolding read to_args index
memcached_stateful_set config m h = record {
  api_version = "apps/v1";
  kind = "StatefulSet";
  name = config.name;
  namespace = config.namespace;
  labels = (read config.labels h);
  annotations = [];
  body =
      "Spec"
        := struct (
            "Replicas" := num config.replicas
            ⊕ "Selector" := struct ("MatchLabels" := string_map (read config.labels h) ⊕ done)
            ⊕ "ServiceName" := text config.name
            ⊕ "Template"
              := struct (
                  "ObjectMeta" := struct ("Labels" := string_map (read config.labels h) ⊕ done)
                  ⊕ "Spec"
                    := struct (
                        "ServiceAccountName" := text config.service_account
                        ⊕ "Containers"
                          := list (memcached_container config m & exporter_container config m & end)
                        ⊕ "SecurityContext" := struct done
                        ⊕ done)
                  ⊕ done)
            ⊕ "PodManagementPolicy" := constant "appsv1.OrderedReadyPodManagement"
            ⊕ done)
      ⊕ done;
}

-- magefiles/lib.go
unfoldable pub create_service_account : (name namespace : String) → Ref → Heap → Object
unfolding read
create_service_account name namespace labels h = record {
  api_version = "v1";
  kind = "ServiceAccount";
  name = name;
  namespace = namespace;
  labels = read labels h;
  annotations = [];
  body = done;
}

unfoldable pub create_cache_headless_service : MemcachedConfig → Heap → Object
unfolding read
create_cache_headless_service config h = record {
  api_version = "v1";
  kind = "Service";
  name = config.name;
  namespace = config.namespace;
  labels = (read config.labels h);
  annotations = [];
  body =
      "Spec"
        := struct (
            "ClusterIP" := text "None"
            ⊕ "Ports"
              := list (
                  struct (
                    "Name" := text "client"
                    ⊕ "Port" := num 11211
                    ⊕ "TargetPort" := call "intstr.FromInt32" (num 11211 & end)
                    ⊕ "Protocol" := constant "corev1.ProtocolTCP"
                    ⊕ done)
                  & struct (
                      "Name" := text "metrics"
                      ⊕ "Port" := num 9150
                      ⊕ "TargetPort" := call "intstr.FromInt32" (num 9150 & end)
                      ⊕ "Protocol" := constant "corev1.ProtocolTCP"
                      ⊕ done)
                  & end)
            ⊕ "Selector" := string_map (read config.labels h)
            ⊕ done)
      ⊕ done;
}

abbrev service_monitor : MemcachedConfig → Ref → Heap → Object
service_monitor config labels h = record {
  api_version = "monitoring.coreos.com/v1";
  kind = "ServiceMonitor";
  name = config.name;
  namespace = "openshift-customer-monitoring";
  labels = (read labels h);
  annotations = [];
  body =
      "Spec"
        := struct (
            "Endpoints"
              := list (
                  struct (
                    "Port" := text "metrics"
                    ⊕ "Path" := text "/metrics"
                    ⊕ "Interval" := text "30s"
                    ⊕ "HonorLabels" := flag true
                    ⊕ done)
                  & end)
            ⊕ "Selector" := struct ("MatchLabels" := string_map (read config.labels h) ⊕ done)
            ⊕ "NamespaceSelector"
              := struct ("MatchNames" := list (text config.namespace & end) ⊕ done)
            ⊕ done)
      ⊕ done;
}

unfoldable pub create_cache_service_monitor :
    MemcachedConfig → Heap → Outcome ((Heap → Object) × Heap)
unfolding deep_copy_map assign read
create_cache_service_monitor config h =
    let (labels, h') = deep_copy_map config.labels h in
    do g ← assign labels "prometheus" "app-sre" h'; ok (service_monitor config labels, g)

-- The two files of `Stage.Cache`, encoded with the maps as they are when all objects are built.
unfoldable pub cache_files : MemcachedConfig → TemplateMaps → (Heap → Object) → Heap → List File
unfolding memcached_stateful_set create_service_account create_cache_headless_service
cache_files config m monitor g =
    record {
      dir = generator "staging" cache_name;
      name = "memcached-template.yaml";
      contents =
          template cache_name
            (map (λ o. o g)
              (memcached_stateful_set config m
                ∷ create_service_account config.service_account config.namespace config.labels
                ∷ create_cache_headless_service config
                ∷ []))
            [];
    }
    ∷ record {
      dir = generator "staging" cache_name;
      name = "service-monitor-memcached-template.yaml";
      contents = template (cache_name <> "-service-monitor") (map (λ o. o g) (monitor ∷ [])) [];
    }
    ∷ []

unfoldable pub cache : TemplateMaps → Heap → Outcome (List File)
unfolding gateway_cache create_cache_service_monitor cache_files
cache m h =
    let (config, h') = gateway_cache m h in
    do built ← create_cache_service_monitor config h'; ok (cache_files config m built.0 built.1)
