-- ===== src/Framework/Workloads.antt =====
-- tests/integration_tests/framework/pkg/deployment/deployment.go and statefulset/statefulset.go: the
-- check of one kind of workload. The two files have the same functions, of which `Kind` holds what
-- differs. What is only written to the log is left out.
pub mod Health
pub mod Listed
pub mod Examined
pub mod Passed
pub mod Verdict
pub mod Stored
pub mod Steady
use rhobs.Base.{
  ℕ, String, Bool, true, false, not, ◌||◌, text_comparable, if◌then◌else◌, Option, none, some, List,
  [], ◌∷◌,
}
use rhobs.Base.Dict.{Dict, lookup}
use rhobs.Framework.{
  Action, ErrorLists, ret, fail, handle, ◌>>=◌, errors_of, deref, for_each, is_empty,
}
use rhobs.Framework.Errors.{Failure}
use rhobs.Framework.Kubernetes.{Cluster, Workload, Duration, is_positive}
use rhobs.Framework.Pods.{get_pod_status}

pub record Kind (W : Type 0) : Type 0 where
  pub get : (namespace name : String) → Action W Workload
  -- Whether the update of a workload is what its wanted replicas and its generation ask for.
  pub available : (wanted generation : ℕ) → Workload → Bool
  pub not_healthy : Failure
  pub namespace_empty : Failure
  pub not_found : Failure
  pub invalid_interval : Failure
  pub validation_failed : Failure

-- `m[key]` of a map of slices: nil where the key is missing.
abbrev pub items_of {ℓ} : {A : Type ℓ} → Option (List A) → List A
items_of none = []
items_of (some xs) = xs

module _ {W : Type 0} (c : Cluster W) (k : Kind W) where
  -- The function that `checkDeploymentStatus` or `checkStatefulSetStatus` retries.
  unfoldable pub attempt : String → Workload → Action W Unit
  attempt namespace d = do
    updated ← k.get namespace d.name
    wanted ← deref d.replicas
    if k.available wanted d.generation updated then ret tt else fail k.not_healthy

  unfoldable pub check_status : String → Workload → Action W Unit
  unfolding attempt
  check_status namespace d = c.retry_on_conflict (attempt namespace d)

  -- The two functions that are polled.
  unfoldable pub condition : String → Workload → Action W Bool
  unfolding check_status
  condition namespace d = do u ← check_status namespace d; ret true

  unfoldable pub pod_condition : String → Workload → Action W Bool
  unfolding get_pod_status
  pod_condition namespace d = do
    labels ← deref d.match_labels
    u ← get_pod_status c namespace labels
    ret true

  module _ (interval timeout : Duration) where
    -- One turn of the inner loop of `validateDeploymentsByNamespace` or `validateStatefulSetsByNamespace`.
    unfoldable pub validate_workload : String → Workload → Action W ErrorLists
    unfolding condition pod_condition
    validate_workload namespace d = do
      dep_errors ← errors_of (c.poll_until_context_timeout interval timeout (condition namespace d))
      pod_errors ←
          errors_of (c.poll_until_context_timeout interval timeout (pod_condition namespace d))
      ret (dep_errors, pod_errors)

    unfoldable pub validate_by_namespace : List String → Dict String (List Workload) → Action W Unit
    unfolding validate_workload lookup
    validate_by_namespace namespaces found =
        if is_empty namespaces
        then fail k.namespace_empty
        else if is_empty found
        then fail k.not_found
        else if not (is_positive interval) || not (is_positive timeout)
        then fail k.invalid_interval
        else (do
          errors ←
              for_each (λ n. for_each (validate_workload n) (items_of (lookup n found))) namespaces
          if not (is_empty errors.0) || not (is_empty errors.1)
              then fail k.validation_failed
              else ret tt)
