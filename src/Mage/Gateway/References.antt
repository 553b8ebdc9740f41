-- ===== src/Mage/Gateway/References.antt =====
-- What the objects of the gateway refer to: maps of data, volumes, ports.
use rhobs.Base.{
  ℕ, String, ◌≡◌, ◌==◌, nat_comparable, text_comparable, Bool, true, ◌&&◌, ◌||◌, if◌then◌else◌,
  List, [], ◌∷◌, ◌++◌, any, all, contains,
}
use rhobs.Base.Dict.{Dict}
use rhobs.Mage.Value.{Value, Object, num, call, struct, end, ◌&◌}
use rhobs.Mage.Paths.{at, items, all_items, strings, text_of, num_of, texts_at}
use rhobs.Mage.Heap.{Heap}
use rhobs.Mage.OperatorCr.{File, Contents, template, documents}

abbrev objects_of : Contents → List Object
objects_of (template name objects params) = objects
objects_of (documents objects) = objects

abbrev pub objects_in : List File → List Object
objects_in [] = []
objects_in (f ∷ fs) = objects_of f.contents ++ objects_in fs

abbrev pub of_kind : String → List Object → List Object
of_kind kind [] = []
of_kind kind (o ∷ os) = let rest = of_kind kind os in if o.kind == kind then o ∷ rest else rest

-- The values at a path of the bodies of some objects.
abbrev pub bodies : List Object → List Value
bodies [] = []
bodies (o ∷ os) = struct o.body ∷ bodies os

abbrev pub keys : Dict String String → List String
keys [] = []
keys ((k, v) ∷ d) = k ∷ keys d

-- The keys of the data of an object of a kind and a name.
abbrev keys_of : (kind field name : String) → List Object → List String
keys_of kind field name [] = []
keys_of kind field name (o ∷ os) =
    let rest = keys_of kind field name os in
    if o.kind == kind && o.name == name
    then keys (strings (at (field ∷ []) (struct o.body))) ++ rest
    else rest

-- The keys of what a volume is filled from: a config map, or a secret.
abbrev volume_keys : List Object → Value → List String
volume_keys os v =
    keys_of "ConfigMap" "Data"
      (text_of (at ("VolumeSource" ∷ "ConfigMap" ∷ "LocalObjectReference" ∷ "Name" ∷ []) v)) os
    ++ keys_of "Secret" "StringData"
        (text_of (at ("VolumeSource" ∷ "Secret" ∷ "SecretName" ∷ []) v)) os

-- A mount is of a volume that is filled with its file.
abbrev mounted : List Object → (volumes : List Value) → Value → Bool
mounted os volumes mount =
    any
      (λ v.
        text_of (at ("Name" ∷ []) v) == text_of (at ("Name" ∷ []) mount)
        && contains (volume_keys os v) (text_of (at ("SubPath" ∷ []) mount)))
      volumes

-- An environment variable that is taken from a secret is a key of it.
abbrev from_secret : List Object → Value → Bool
from_secret os env =
    let name =
      text_of (at ("ValueFrom" ∷ "SecretKeyRef" ∷ "LocalObjectReference" ∷ "Name" ∷ []) env) in
    name == ""
    || contains (keys_of "Secret" "StringData" name os)
        (text_of (at ("ValueFrom" ∷ "SecretKeyRef" ∷ "Key" ∷ []) env))

abbrev pub pod : List String
pod = "Spec" ∷ "Template" ∷ "Spec" ∷ []

abbrev pub containers : List Object → List Value
containers os = all_items (pod ++ ("Containers" ∷ [])) (bodies (of_kind "Deployment" os))

abbrev filled : List Object → Object → Bool
filled os o =
    let cs = items (at (pod ++ ("Containers" ∷ [])) (struct o.body)) in
    all (mounted os (items (at (pod ++ ("Volumes" ∷ [])) (struct o.body))))
      (all_items ("VolumeMounts" ∷ []) cs)
    && all (from_secret os) (all_items ("Env" ∷ []) cs)

abbrev target_port : Value → ℕ
target_port (call f (num n & end)) = n
target_port v = 0

-- A port of a service is, with its name, a port of a container.
abbrev served : (containers : List Value) → Value → Bool
served cs port =
    any
      (λ p.
        text_of (at ("Name" ∷ []) p) == text_of (at ("Name" ∷ []) port)
        && num_of (at ("ContainerPort" ∷ []) p) == target_port (at ("TargetPort" ∷ []) port))
      (all_items ("Ports" ∷ []) cs)

abbrev service_ports : List Object → List Value
service_ports os = all_items ("Spec" ∷ "Ports" ∷ []) (bodies (of_kind "Service" os))

-- The ports that a service monitor names and no service has.
abbrev pub missing_from : List String → List String → List String
missing_from known [] = []
missing_from known (n ∷ ns) =
    let rest = missing_from known ns in if contains known n then rest else n ∷ rest

abbrev unserved : List Object → List String
unserved os = missing_from (texts_at ("Name" ∷ []) (service_ports os)) (
    texts_at ("Port" ∷ [])
      (all_items ("Spec" ∷ "Endpoints" ∷ []) (bodies (of_kind "ServiceMonitor" os))))

abbrev mounted_files : List Object → List String
mounted_files os = texts_at ("SubPath" ∷ []) (all_items ("VolumeMounts" ∷ []) (containers os))

pub record IsResolved (os : List Object) : Type 0 where
  pub mounts : mounted_files os ≡ "rbac.yaml" ∷ "tenants.yaml" ∷ []
  pub deployments : all (filled os) (of_kind "Deployment" os) ≡ true
  pub service : all (served (containers os)) (service_ports os) ≡ true
  pub monitored : unserved os ≡ "metrics" ∷ []
