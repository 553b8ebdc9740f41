-- ===== src/Framework/Workloads/Steady.antt =====
-- The check of workloads that stay healthy returns.
use rhobs.Base.{
  ℕ, ◌≡◌, refl, ap, ◌∙◌, true, false, ◌==◌, text_comparable, String, some, List, [], All,
}
use rhobs.Base.Dict.{Dict}
use rhobs.Framework.{ret, fail, errors_of, deref, is_empty}
use rhobs.Framework.Kubernetes.{Cluster, Workload, Duration, is_positive}
use rhobs.Framework.Kubernetes.Laws.{Time}
use rhobs.Framework.Pods.{get_pod_status}
use rhobs.Framework.Pods.Steady.{Logged, PodsSteady, get_pod_status-Done}
use rhobs.Framework.Workloads.Stored.{Filled, validate-Done}
use rhobs.Framework.Steady.{
  Prompt, Done, Meets, Meets-ret, Meets-bind, Meets-pass, Meets-deref, Meets-errors_of,
}
use rhobs.Framework.Workloads.{
  Kind, attempt, check_status, condition, pod_condition, validate_workload, validate_by_namespace,
}

module _ {W : Type 0} (c : Cluster W) (k : Kind W) (t : Time W) (u : W) where
  -- From `u` on the workload is available at its wanted replicas, and its pods are healthy.
  pub record WorkloadSteady (namespace : String) (d : Workload) : Type 0 where
    pub wanted : ℕ
    pub labels : Dict String String
    pub has_replicas : d.replicas ≡ some wanted
    pub has_labels : d.match_labels ≡ some labels
    pub is_available :
        Meets t u
          (λ updated. k.available wanted d.generation updated ≡ true)
          (k.get namespace d.name)
    pub pods : PodsSteady c t u namespace labels

  -- A namespace whose logs can be read.
  abbrev pub Readable : String → Type 0
  Readable n = ((n == "") ≡ false) × Logged c t u n

module _ {W : Type 0} (c : Cluster W) (k : Kind W) (t : Time W) (u : W) (i o : Duration)
    (prompt : Prompt c t i o) where
  module _ (namespace : String) (named : (namespace == "") ≡ false)
      (logged : Logged c t u namespace) (d : Workload)
      (s : WorkloadSteady c k t u namespace d) where
    attempt-Done : Done t u (attempt c k namespace d)
    unfolding attempt
    attempt-Done = Meets-bind t u (k.get namespace d.name) _ s.is_available λ updated h.
        Meets-bind t u {P = λ n. n ≡ s.wanted} (deref d.replicas) _
          (Meets-deref t u d.replicas s.wanted s.has_replicas refl)
          λ wanted e.
            Meets-pass t u (ret tt) (fail k.not_healthy)
              (ap (λ n. k.available n d.generation updated) e ∙ h) (Meets-ret t u tt tt)

    condition-Meets : Meets t u (λ b. b ≡ true) (condition c k namespace d)
    unfolding condition check_status
    condition-Meets =
        Meets-bind t u (check_status c k namespace d) (λ x. ret true)
          (prompt.retries u (attempt c k namespace d) attempt-Done) λ x e. Meets-ret t u true refl

    pod_condition-Meets : Meets t u (λ b. b ≡ true) (pod_condition c k namespace d)
    unfolding pod_condition
    pod_condition-Meets =
        Meets-bind t u {P = λ l. PodsSteady c t u namespace l} (deref d.match_labels) _
          (Meets-deref t u d.match_labels s.labels s.has_labels s.pods)
          λ labels p.
            Meets-bind t u (get_pod_status c namespace labels) (λ x. ret true)
              (get_pod_status-Done c t u namespace named logged labels p)
              λ x e. Meets-ret t u true refl

    validate_workload-Meets :
        Meets t u (λ es. es ≡ ([], [])) (validate_workload c k i o namespace d)
    unfolding validate_workload
    validate_workload-Meets =
        Meets-bind t u (errors_of (c.poll_until_context_timeout i o (condition c k namespace d))) _
          (Meets-errors_of t u _ (prompt.polls u (condition c k namespace d) condition-Meets))
          λ ds p.
            Meets-bind t u
              (errors_of (c.poll_until_context_timeout i o (pod_condition c k namespace d))) _
              (Meets-errors_of t u _
                (prompt.polls u (pod_condition c k namespace d) pod_condition-Meets))
              λ ps q. Meets-ret t u (ds, ps) (cc)

  -- Where all workloads of a map stay healthy, and the durations are positive, their validation returns.
  pub validate_by_namespace-Done :
      (namespaces : List String) (found : Dict String (List Workload))
      → is_positive i ≡ true
      → is_positive o ≡ true
      → is_empty namespaces ≡ false
      → All (Readable c k t u) namespaces
      → Filled t u (WorkloadSteady c k t u) (Readable c k t u) found
      → Done t u (validate_by_namespace c k i o namespaces found)
  unfolding validate_by_namespace
  validate_by_namespace-Done namespaces found pi po ne readable filled =
      validate-Done t u (WorkloadSteady c k t u) (Readable c k t u) (validate_workload c k i o)
        (λ n d r s. validate_workload-Meets n r.0 r.1 d s) k.namespace_empty k.not_found
        k.invalid_interval k.validation_failed i o namespaces found pi po ne readable filled
