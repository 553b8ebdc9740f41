-- ===== src/Framework/Pods/Health.antt =====
-- What the check of the pods guarantees when it returns.
use rhobs.Base.{
  ◌≡◌, refl, Bool, true, false, not, ◌&&◌, ◌==◌, text_comparable, Bool-cases, if◌then◌else◌, inl,
  inr, String, List, [], ◌∷◌, any, all, arith,
}
use rhobs.Base.Dict.{Dict}
use rhobs.Framework.{Action, returned, fail, ◌>>=◌, handle, is_empty}
use rhobs.Framework.Errors.{
  pod_not_running, container_restarted, listing_pods, pod_no_namespace, no_pod,
}
use rhobs.Framework.Kubernetes.{Cluster, Pod, ContainerStatus}
use rhobs.Framework.Kubernetes.Returned.{bind-returned, guard-returned, handle-fail-returned}
use rhobs.Framework.Pods.{
  is_restarted, is_running, get_pod_logs, check_statuses, check_pods, check_pod_status, pod_logs,
  get_pod_status,
}

-- A pod that runs, with no container that was restarted after it ended and waits to run again.
abbrev pub is_healthy : Pod → Bool
is_healthy p = is_running p && not (any is_restarted p.statuses)

module _ {W : Type 0} (c : Cluster W) (namespace : String) where
  -- At the moment `w` the cluster lists pods for the labels, and all of them are healthy.
  abbrev pub PodsHealthy : Dict String String → W → Type 0
  PodsHealthy labels w =
      (ps : List Pod) × (v : W) × (c.list_pods namespace labels w ≡ (returned ps, v))
      × (is_empty ps ≡ false)
      × (all is_healthy ps ≡ true)

  statuses-returned :
      (p : Pod) (ss : List ContainerStatus) {u w : W} {a : Unit}
      → check_statuses c namespace p ss u ≡ (returned a, w)
      → (any is_restarted ss ≡ false) × (u ≡ w)
  statuses-returned p [] e = (refl, cc)
  statuses-returned p (s ∷ ss) {u} {w} e = elim (Bool-cases (is_restarted s)) [
    | inl h ↦
        let (b, v, q, r) =
          bind-returned (get_pod_logs c namespace p)
            (λ x. fail (container_restarted s.name s.restart_count)) (rw h at e) in
        cc
    | inr h ↦ let (g, q) = statuses-returned p ss (rw h at e) in (ground (arith, g, h), q)
  ]

  pods-returned :
      (ps : List Pod) (u : W) {w : W} {a : Unit}
      → check_pods c namespace ps u ≡ (returned a, w)
      → all is_healthy ps ≡ true
  pods-returned [] u e = refl
  pods-returned (p ∷ ps) u {w} e =
      let (h, e') =
        guard-returned (not (is_running p)) pod_not_running
          (check_statuses c namespace p p.statuses >>= λ x. check_pods c namespace ps) e in
      let (b, v, q, r) =
        bind-returned (check_statuses c namespace p p.statuses) (λ x. check_pods c namespace ps)
          e' in
      let (g, k) = statuses-returned p p.statuses q in
      let rest = pods-returned ps v r in ground (arith, g, h, rest)

  -- When the check of the pods returns, the cluster has listed pods for the labels, and all of them
  -- are healthy.
  pub get_pod_status-healthy :
      (labels : Dict String String) {u w : W} {a : Unit}
      → get_pod_status c namespace labels u ≡ (returned a, w)
      → PodsHealthy labels u
  unfolding get_pod_status check_pod_status
  get_pod_status-healthy labels {u} {w} e =
      let listed : List Pod → Action W Unit =
        λ ps. check_pod_status c namespace ps >>= λ x. pod_logs c namespace ps in
      let (n, e1) =
        guard-returned (namespace == "") pod_no_namespace
          (handle (c.list_pods namespace labels) (λ e. fail listing_pods) listed) e in
      let (ps, v, p, e2) =
        handle-fail-returned (c.list_pods namespace labels) listing_pods listed e1 in
      let (b, v', q, e3) =
        bind-returned (check_pod_status c namespace ps) (λ x. pod_logs c namespace ps) e2 in
      let (n', e4) =
        guard-returned (namespace == "") pod_no_namespace
          (if is_empty ps then fail no_pod else check_pods c namespace ps) q in
      let (some_pods, e5) = guard-returned (is_empty ps) no_pod (check_pods c namespace ps) e4 in
      (ps, v, p, some_pods, pods-returned ps v e5)
