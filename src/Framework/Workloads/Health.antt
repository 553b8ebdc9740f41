-- ===== src/Framework/Workloads/Health.antt =====
-- What the check of a workload guarantees when it returns.
use mathlib.Core.Path.{subst}
use rhobs.Base.{ℕ, ◌≡◌, ap, ◌∙◌, Bool, true, if◌then◌else◌, String, some}
use rhobs.Base.Dict.{Dict}
use rhobs.Framework.{Action, returned, ret, fail, ◌>>=◌, errors_of, deref}
use rhobs.Framework.Kubernetes.{Cluster, Workload, Duration}
use rhobs.Framework.Kubernetes.Laws.{
  Time, Lawful, Forward, Between, bind-Forward, choice-Forward, deref-Forward, Retried-Forward,
}
use rhobs.Framework.Kubernetes.Returned.{
  bind-returned, deref-returned, both-returned, pass-returned,
}
use rhobs.Framework.Kubernetes.Waiting.{
  retry-returned, poll-returned, poll-Forward, forward_at, Clean,
}
use rhobs.Framework.Pods.{get_pod_status}
use rhobs.Framework.Pods.Health.{PodsHealthy, get_pod_status-healthy}
use rhobs.Framework.Pods.Forward.{get_pod_status-Forward}
use rhobs.Framework.Workloads.{
  Kind, attempt, check_status, condition, pod_condition, validate_workload,
}

module _ {W : Type 0} (c : Cluster W) (k : Kind W) (namespace : String) (d : Workload) where
  -- At the moment `w` the cluster reports the workload as available, at the wanted replicas.
  abbrev pub WorkloadHealthy : W → Type 0
  WorkloadHealthy w =
      (updated : Workload) × (wanted : ℕ) × (v : W) × (k.get namespace d.name w
        ≡ (returned updated, v))
      × (d.replicas ≡ some wanted)
      × (k.available wanted d.generation updated ≡ true)

  -- At the moment `w` the pods that the workload selects are healthy.
  abbrev pub SelectedHealthy : W → Type 0
  SelectedHealthy w =
      (labels : Dict String String) × (d.match_labels ≡ some labels)
      × PodsHealthy c namespace labels w

  attempt-healthy :
      {u w : W} {a : Unit} → attempt c k namespace d u ≡ (returned a, w) → WorkloadHealthy u
  unfolding attempt
  attempt-healthy e =
      let decide : Workload → ℕ → Action W Unit = λ updated wanted.
        if k.available wanted d.generation updated then ret tt else fail k.not_healthy in
      let (updated, v, p, e1) =
        bind-returned (k.get namespace d.name) (λ updated. deref d.replicas >>= decide updated) e in
      let (wanted, v', q, e2) = bind-returned (deref d.replicas) (decide updated) e1 in
      let (r, s) = deref-returned d.replicas q in
      let (g, e3) =
        pass-returned (k.available wanted d.generation updated) (ret tt) k.not_healthy e2 in
      (updated, wanted, v, p, r, g)

  module _ {t : Time W} (l : Lawful c t) (fg : (n x : String) → Forward t (k.get n x)) where
    attempt-Forward : Forward t (attempt c k namespace d)
    unfolding attempt
    attempt-Forward = bind-Forward t (k.get namespace d.name) _ (fg namespace d.name) λ updated.
        bind-Forward t (deref d.replicas) _ (deref-Forward t d.replicas) λ wanted.
          choice-Forward t (k.available wanted d.generation updated) (ret tt) (fail k.not_healthy)
            (λ w. t.now w) (λ w. t.now w)

    status-Forward : Forward t (check_status c k namespace d)
    unfolding check_status
    status-Forward w =
        Retried-Forward t (attempt c k namespace d) attempt-Forward w _ _
          (l.retried (attempt c k namespace d) w)

    condition-Forward : Forward t (condition c k namespace d)
    unfolding condition
    condition-Forward =
        bind-Forward t (check_status c k namespace d) _ status-Forward (λ u w. t.now w)

    pod_condition-Forward : Forward t (pod_condition c k namespace d)
    unfolding pod_condition
    pod_condition-Forward =
        bind-Forward t (deref d.match_labels) _ (deref-Forward t d.match_labels) λ labels.
          bind-Forward t (get_pod_status c namespace labels) _
            (get_pod_status-Forward l namespace labels) (λ u w. t.now w)

    condition-healthy :
        {u w : W} {b : Bool}
        → condition c k namespace d u ≡ (returned b, w)
        → Between t u w WorkloadHealthy
    unfolding condition check_status
    condition-healthy {u} {w} e =
        let (a, v, p, q) = bind-returned (check_status c k namespace d) (λ x. ret true) e in
        let (x, r, s) = retry-returned l (attempt c k namespace d) attempt-Forward p in
        let vw : v ≡ w = cc in
        (
          x,
          r,
          subst (t.Reaches x) vw (forward_at t (attempt c k namespace d) attempt-Forward s),
          attempt-healthy s,
        )

    pods-healthy :
        {u w : W} {b : Bool} → pod_condition c k namespace d u ≡ (returned b, w) → SelectedHealthy u
    unfolding pod_condition
    pods-healthy {u} e =
        let check : Dict String String → Action W Bool =
          λ labels. get_pod_status c namespace labels >>= λ x. ret true in
        let (labels, v, p, e1) = bind-returned (deref d.match_labels) check e in
        let (q, r) = deref-returned d.match_labels p in
        let (a, v', s, e2) = bind-returned (get_pod_status c namespace labels) (λ x. ret true) e1 in
        (
          labels,
          q,
          get_pod_status-healthy c namespace labels (ap (get_pod_status c namespace labels) r ∙ s),
        )

    -- A turn without errors saw the workload and its pods healthy.
    pub turn-healthy :
        (i o : Duration) {u w : W}
        → Clean t (validate_workload c k i o namespace d) u w
        → Between t u w WorkloadHealthy × Between t u w SelectedHealthy
    unfolding validate_workload
    turn-healthy i o {u} {w} (v, x, uv, xw, e) =
        let dep = condition c k namespace d in
        let pods = pod_condition c k namespace d in
        let (v1, (a, p), (b, q)) =
          both-returned (c.poll_until_context_timeout i o dep)
            (c.poll_until_context_timeout i o pods) e in
        let (y, vy, k) = poll-returned l i o dep condition-Forward p in
        let (z, yz, zv1, h) = condition-healthy k in
        let (y', v1y', k') = poll-returned l i o pods pod_condition-Forward q in
        let y'w = t.later (forward_at t pods pod_condition-Forward k') xw in
        (
          (z, t.later uv (t.later vy yz), t.later zv1 (t.later v1y' y'w), h),
          (
            y',
            t.later uv (t.later vy (t.later (forward_at t dep condition-Forward k) v1y')),
            y'w,
            pods-healthy k',
          ),
        )

    pub turn-Forward : (i o : Duration) → Forward t (validate_workload c k i o namespace d)
    unfolding validate_workload
    turn-Forward i o =
        bind-Forward t (errors_of (c.poll_until_context_timeout i o (condition c k namespace d))) _
          (poll-Forward l i o (condition c k namespace d) condition-Forward)
          λ ds.
            bind-Forward t
              (errors_of (c.poll_until_context_timeout i o (pod_condition c k namespace d))) _
              (poll-Forward l i o (pod_condition c k namespace d) pod_condition-Forward)
              λ ps w. t.now w
