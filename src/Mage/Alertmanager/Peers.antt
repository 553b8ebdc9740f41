-- ===== src/Mage/Alertmanager/Peers.antt =====
-- The peers of the Alertmanager's pods.
use mathlib.Core.List.{append_assoc, append-nil}
use text.Mathlib.TextLemmas.{append_cancel_left, append_cancel_right}
use rhobs.Base.{
  ℕ, zero, suc, ◌+◌, ◌<◌, ◌≤◌, String, ◌<>◌, ◌≡◌, refl, ap, sym, ◌∙◌, ◌==◌, ==_refl, Bool-cases,
  nat_comparable, text_comparable, true, false, inl, inr, List, [], ◌∷◌, ◌++◌, length, contains,
  distinct, arith,
}
use rhobs.Base.Text.Decimal.{show}
use rhobs.Base.Text.Numeral.{show-injective}
use rhobs.Mage.Gateway.{alert_manager_name}
use rhobs.Mage.Alertmanager.{
  AlertManagerOptions, AlertManagerStatefulSet, ManifestOptions, cluster_peer_of, peers_loop,
  alertmanager_kubernetes,
}

module _ (name headless_service_name namespace : String) where
  -- The address of a pod.
  abbrev pub peer : ℕ → String
  peer i = cluster_peer_of name i headless_service_name namespace

  -- The addresses of some pods in a row.
  abbrev pub peers : (rounds i : ℕ) → List String
  peers zero i = []
  peers (suc rounds) i = peer i ∷ peers rounds (suc i)

  peer-injective : (i j : ℕ) → peer i ≡ peer j → i ≡ j
  peer-injective i j e = show-injective i j (
      append_cancel_right (show i) (show j)
        ("." <> (headless_service_name <> ("." <> (namespace <> ".svc.cluster.local:9094"))))
        (append_cancel_left "-" _ _ (append_cancel_left name _ _ e)))

  later_apart : (rounds i j : ℕ) → i < j → contains (peers rounds j) (peer i) ≡ false
  later_apart zero i j h = refl
  later_apart (suc rounds) i j h = elim (Bool-cases (peer j == peer i)) [
    | inl e ↦
        let same : j ≡ i = peer-injective j i ((text_comparable.equal_iff (peer j) (peer i)).0 e) in
        ground (arith, h, same)
    | inr n ↦ ground (arith, n, later_apart rounds i (suc j) (omega (arith, h)))
  ]

  peers-distinct : (rounds i : ℕ) → distinct (peers rounds i) ≡ true
  peers-distinct zero i = refl
  peers-distinct (suc rounds) i =
      ground (arith, later_apart rounds i (suc i), peers-distinct rounds (suc i))

  length-peers : (rounds i : ℕ) → length (peers rounds i) ≡ rounds
  length-peers zero i = refl
  length-peers (suc rounds) i = ground (arith, length-peers rounds (suc i))

  contains-peers :
      (rounds i j : ℕ) → i ≤ j → j < i + rounds → contains (peers rounds i) (peer j) ≡ true
  contains-peers zero i j h k = ground (arith, h, k)
  contains-peers (suc rounds) i j h k = elim (Bool-cases (i == j)) [
    | inl e ↦
        let same : (peer i == peer j) ≡ true =
          ap (λ k. peer i == peer k) (sym ((nat_comparable.equal_iff i j).0 e))
          ∙ ==_refl (peer i) in
        ground (arith, same)
    | inr n ↦
        let after : suc i ≤ j = ground (arith, n, h, nat_comparable.equal_iff i j) in
        let found : contains (peers rounds (suc i)) (peer j) ≡ true =
          contains-peers rounds (suc i) j after (omega (arith, k)) in
        ground (arith, found)
  ]

  pub peers_loop_lem :
      (rounds i : ℕ) (opts : AlertManagerOptions)
      → peers_loop name headless_service_name namespace rounds i opts
        ≡ record opts { cluster_peer = opts.cluster_peer ++ peers rounds i }
  unfolding peers_loop
  peers_loop_lem zero i opts =
      ap (λ ps. record opts { cluster_peer = ps }) (sym (append-nil opts.cluster_peer))
  peers_loop_lem (suc rounds) i opts =
      peers_loop_lem rounds (suc i) _
      ∙ ap (λ ps. record opts { cluster_peer = ps })
          (append_assoc opts.cluster_peer (peer i ∷ []) (peers rounds (suc i)))

-- The options that the library of the Alertmanager is left with have the peers that were there and one
-- for each replica of the stateful set, which are all different, and no other field is changed; each
-- pod of the stateful set, by its name and number, is among the peers.
pub alertmanager_kubernetes-peers :
    (new_alert_manager : AlertManagerOptions
      → (namespace image_tag : String) → AlertManagerStatefulSet)
    → (opts : AlertManagerOptions) (options : ManifestOptions)
    → let made = alertmanager_kubernetes new_alert_manager opts options in
      let sts = made.1 in
      let added = peers sts.name (sts.name <> "-cluster") options.namespace sts.replicas 0 in
      (made.0 ≡ record opts { cluster_peer = opts.cluster_peer ++ added })
      × (length added ≡ sts.replicas)
      × (distinct added ≡ true)
      × ((i : ℕ)
          → i < sts.replicas
          → contains added (peer sts.name (sts.name <> "-cluster") options.namespace i) ≡ true)
unfolding alertmanager_kubernetes
alertmanager_kubernetes-peers new_alert_manager opts options = (
  peers_loop_lem alert_manager_name "alertmanager-cluster" options.namespace 2 0 opts,
  length-peers alert_manager_name "alertmanager-cluster" options.namespace 2 0,
  peers-distinct alert_manager_name "alertmanager-cluster" options.namespace 2 0,
  λ i h.
      contains-peers alert_manager_name "alertmanager-cluster" options.namespace 2 0 i (omega arith)
        (omega (arith, h)),
)
