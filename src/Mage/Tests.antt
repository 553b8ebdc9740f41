-- ===== src/Mage/Tests.antt =====
-- The theorems on magefiles/ at concrete inputs.
use rhobs.Base.{true, false}
use rhobs.Mage.Value.{Value, text, flag, struct, ◌:=◌, ◌⊕◌}
use rhobs.Mage.Params.{template_fn}
use rhobs.Mage.OperatorCr.{stage_namespace, local_namespace}
use rhobs.Mage.Secrets.{stage_secrets, local_secrets}
use rhobs.Mage.Secrets.References.{
  is_secret_of, objects_in, stage_bucket-secret, local_bucket-secret,
}
use rhobs.Base.{
  ℕ, ◌<◌, ◌≡◌, Bool, String, refl, ◌==◌, ◌<>◌, ◌++◌, text_comparable, any, if◌then◌else◌, ◌⊎◌, some,
  List, ◌∷◌, arith,
}
use rhobs.Base.Outcome.{ok, panic}
use rhobs.Mage.Value.{Object, done}
use rhobs.Mage.Objects.{is_wanted, get_and_remove_object, get_and_remove_object-splits}
use rhobs.Mage.Heap.{Heap, read}
use rhobs.Mage.OperatorCr.{template, generator}
use rhobs.Mage.Cache.{
  MemcachedConfig, cache_name, gateway_cache_labels, cache, create_cache_service_monitor,
}
use rhobs.Base.Integer.{pos}
use rhobs.Mage.Cache.Labels.{cache-labels, create_cache_service_monitor-labels}
use rhobs.Base.{false, true, []}
use rhobs.Base.Dict.{lookup}
use rhobs.Base.Outcome.Runs.{Runs}
use rhobs.Mage.Params.Resources.{stage_maps}
use rhobs.Mage.Params.Local.{local_maps}
use rhobs.Mage.OperatorCr.{stage_objects, local_objects}
use rhobs.Mage.OperatorCr.Generated.{
  Identities, stage_identities, local_identities, stage_objects-Runs, local_objects-Runs,
}

stage_objects-Runs_example :
    Runs true (Identities (stage_identities "rhobs-stage")) (stage_objects "rhobs-stage" stage_maps)
unfolding lookup
stage_objects-Runs_example = stage_objects-Runs "rhobs-stage" stage_maps

-- Without the images nothing is generated.
local_objects-Runs_example :
    Runs false
      (Identities (local_identities "rhobs-local"))
      (local_objects "rhobs-local" (record local_maps { images = [] }))
unfolding lookup
local_objects-Runs_example = local_objects-Runs "rhobs-local" (record local_maps { images = [] })

abbrev plain : String → String → Object
plain kind name = record {
  api_version = "v1";
  kind = kind;
  name = name;
  namespace = "rhobs-stage";
  labels = [];
  annotations = [];
  body = done;
}

abbrev name_of : Object → String
name_of o = o.name

abbrev is_service : Object → Bool
is_service o = o.kind == "Service"

-- Of two services without a wanted name the first one is taken, and there is no panic.
get_and_remove_object-splits_example :
    ((before : List Object) × (o : Object) × (rest : List Object) × (plain "Secret" "a"
          ∷ plain "Service" "b"
          ∷ plain "Service" "c"
          ∷ []
        ≡ before ++ o ∷ rest)
      × (any (is_wanted name_of is_service "*v1.Service" "") before ≡ false)
      × (is_wanted name_of is_service "*v1.Service" "" o ≡ true)
      × (get_and_remove_object name_of is_service "*v1.Service" ""
            (plain "Secret" "a" ∷ plain "Service" "b" ∷ plain "Service" "c" ∷ [])
          ≡ ok (o, before ++ rest)))
    ⊎ ((any
            (is_wanted name_of is_service "*v1.Service" "")
            (plain "Secret" "a" ∷ plain "Service" "b" ∷ plain "Service" "c" ∷ [])
          ≡ false)
        × (get_and_remove_object name_of is_service "*v1.Service" ""
              (plain "Secret" "a" ∷ plain "Service" "b" ∷ plain "Service" "c" ∷ [])
            ≡ panic "could not find object of type *v1.Service"))
get_and_remove_object-splits_example =
    get_and_remove_object-splits name_of is_service "*v1.Service" ""
      (plain "Secret" "a" ∷ plain "Service" "b" ∷ plain "Service" "c" ∷ [])

abbrev no_maps : Heap
no_maps = record { fresh = 0; maps = [] }

cache-labels_example :
    (stateful_set : Object) × (account : Object) × (service : Object) × (monitor : Object) × (cache
        stage_maps no_maps
      ≡ ok (
          record {
            dir = generator "staging" cache_name;
            name = "memcached-template.yaml";
            contents = template cache_name (stateful_set ∷ account ∷ service ∷ []) [];
          }
          ∷ record {
            dir = generator "staging" cache_name;
            name = "service-monitor-memcached-template.yaml";
            contents = template (cache_name <> "-service-monitor") (monitor ∷ []) [];
          }
          ∷ []))
    × (stateful_set.labels ≡ gateway_cache_labels stage_maps)
    × (account.labels ≡ gateway_cache_labels stage_maps)
    × (service.labels ≡ gateway_cache_labels stage_maps)
    × ((k : String)
        → lookup k monitor.labels ≡ (
            if "prometheus" == k
            then some "app-sre"
            else lookup k (gateway_cache_labels stage_maps)))
cache-labels_example = cache-labels stage_maps no_maps

abbrev one_map : Heap
one_map = record { fresh = 1; maps = (0, ("app", "memcached") ∷ []) ∷ [] }

abbrev small : MemcachedConfig
small = record {
  name = "m";
  namespace = "n";
  flags = record {
    memory = pos 1;
    max_connections = pos 0;
    max_item_size = "";
    min_item_size = "";
    verbose = false;
    stats_interval = "";
  };
  labels = some 0;
  replicas = 1;
  memcached_image = "";
  exporter_image = "";
  service_account = "m";
}

create_cache_service_monitor-labels_example :
    (monitor : Heap → Object) × (g : Heap) × (create_cache_service_monitor small one_map
      ≡ ok (monitor, g))
    × ((b : ℕ) → b < 1 → read (some b) g ≡ read (some b) one_map)
    × ((k : String)
        → lookup k (monitor g).labels
          ≡ (if "prometheus" == k then some "app-sre" else lookup k (read (some 0) one_map)))
create_cache_service_monitor-labels_example =
    create_cache_service_monitor-labels small 0 one_map refl (omega arith)

abbrev telemeter_bucket : Value
telemeter_bucket = struct (
    "Key" := text "thanos.yaml"
    ⊕ "LocalObjectReference" := struct ("Name" := text "thanos-objectstorage" ⊕ done)
    ⊕ "Optional" := flag false
    ⊕ done)

telemeter_found : template_fn "TELEMETER" stage_maps.object_storage_bucket ≡ ok telemeter_bucket
unfolding template_fn
telemeter_found = refl

stage_bucket-secret_example :
    any (is_secret_of stage_namespace telemeter_bucket) (objects_in stage_secrets) ≡ true
stage_bucket-secret_example = stage_bucket-secret "TELEMETER" telemeter_bucket telemeter_found

local_bucket-secret_example :
    any (is_secret_of local_namespace telemeter_bucket) (objects_in local_secrets) ≡ true
local_bucket-secret_example = local_bucket-secret "TELEMETER" telemeter_bucket telemeter_found
