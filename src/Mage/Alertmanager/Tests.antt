-- ===== src/Mage/Alertmanager/Tests.antt =====
-- The theorem on the Alertmanager at a concrete input.
use rhobs.Base.{
  ◌<◌, ◌<>◌, ◌++◌, ℕ, length, contains, distinct, String, ◌≡◌, true, text_comparable,
  nat_comparable, if◌then◌else◌, none, some, List, [], ◌∷◌,
}
use rhobs.Base.Outcome.{Outcome, ok, panic}
use rhobs.Mage.Value.{text, done}
use rhobs.Mage.Heap.{Ref, Heap}
use rhobs.Mage.Alertmanager.Peers.{peer, peers, alertmanager_kubernetes-peers}
use rhobs.Mage.Alertmanager.{
  ManifestOptions, default_manifest_options, alertmanager_kubernetes, Manifest, AlertManagerOptions,
  AlertManagerStatefulSet,
}
use rhobs.Mage.Alertmanager.Target.{Found, put}
use rhobs.Mage.Alertmanager.Listed.{wanted, count}

abbrev grow : Manifest → Outcome Found → Outcome Found
grow o (panic message) = panic message
grow o (ok f) = ok (record f { before = o ∷ f.before })

-- The first object that is wanted.
abbrev first_wanted : (kind name : String) → List Manifest → Outcome Found
first_wanted kind name [] = panic "could not find object"
first_wanted kind name (o ∷ os) =
    let rest = first_wanted kind name os in
    if wanted kind name o then ok (record { before = []; object = o; after = os }) else grow o rest

IsFound : (kind name : String) → List Manifest → Outcome Found → Type 0
IsFound kind name os (panic message) = count (wanted kind name) os ≡ 0
IsFound kind name os (ok f) = (os ≡ put f f.object) × (wanted kind name f.object ≡ true)

abbrev manifest : (kind name : String) → (labels annotations : Ref) → Manifest
manifest kind name labels annotations = record {
  api_version = "v1";
  kind = kind;
  name = name;
  namespace = "rhobs-stage";
  labels = labels;
  annotations = annotations;
  body = done;
}

abbrev defaults : AlertManagerOptions
defaults = record {
  config_file = text "";
  cluster_reconnect_timeout = 0;
  cluster_peer = [];
  rest = "";
}

abbrev made_set : AlertManagerOptions → (namespace image_tag : String) → AlertManagerStatefulSet
made_set opts namespace image_tag = record {
  image = image_tag;
  replicas = 1;
  name = "";
  volume_size = "";
  volume_type = "";
  container_resources = text "";
  sidecars = [];
  rest = namespace;
}

-- The objects share a map of labels, and the account has no annotations.
abbrev five : List Manifest
five =
    manifest "Service" "alertmanager" (some 0) (some 1)
    ∷ manifest "ServiceMonitor" "alertmanager" (some 0) none
    ∷ manifest "ServiceAccount" "alertmanager" (some 0) none
    ∷ manifest "StatefulSet" "alertmanager" (some 0) none
    ∷ manifest "Service" "alertmanager-cluster" (some 0) none
    ∷ []

abbrev two_maps : Heap
two_maps = record { fresh = 2; maps = (0, ("app", "alertmanager") ∷ []) ∷ (1, []) ∷ [] }

abbrev made_objects : AlertManagerOptions → AlertManagerStatefulSet → Heap → List Manifest × Heap
made_objects opts sts h = (five, h)

abbrev am_options : ManifestOptions
am_options = default_manifest_options "rhobs-stage"

-- The two peers of the stage environment.
alertmanager_kubernetes-peers_example :
    let made = alertmanager_kubernetes made_set defaults am_options in
    let sts = made.1 in
    let added = peers sts.name (sts.name <> "-cluster") am_options.namespace sts.replicas 0 in
    (made.0 ≡ record defaults { cluster_peer = [] ++ added })
    × (length added ≡ sts.replicas)
    × (distinct added ≡ true)
    × ((i : ℕ)
        → i < sts.replicas
        → contains added (peer sts.name (sts.name <> "-cluster") am_options.namespace i) ≡ true)
alertmanager_kubernetes-peers_example = alertmanager_kubernetes-peers made_set defaults am_options
