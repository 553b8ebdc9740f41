-- ===== src/Framework/Deployments.antt =====
-- tests/integration_tests/framework/pkg/deployment/deployment.go. What is only written to the log is
-- left out.
pub mod Verdict
pub mod Examined
pub mod Steady
pub mod Listing
use rhobs.Base.{
  ℕ, String, Bool, true, false, not, ◌&&◌, ◌||◌, ◌==◌, leb, nat_comparable, text_comparable,
  if◌then◌else◌, Option, none, some, List, [], ◌∷◌,
}
use rhobs.Base.Dict.{Dict, lookup, insert}
use rhobs.Framework.{
  Action, ErrorLists, joined, ret, fail, handle, ◌>>=◌, errors_of, deref, for_each, is_empty,
}
use rhobs.Framework.Errors.{
  Failure, listing_deployment, no_deployment, deployment_no_namespace, deployments_not_healthy,
  deployment_namespace_empty, deployment_invalid_interval, deployment_failed, is_no_deployment,
}
use rhobs.Framework.Kubernetes.{Cluster, Workload, Duration, is_positive}
use rhobs.Framework.Workloads.{Kind, check_status, condition, validate_by_namespace}

-- The condition of `checkDeploymentStatus`, on the deployment and its update.
unfoldable pub is_available : (wanted generation : ℕ) → Workload → Bool
is_available wanted generation updated =
    updated.updated_replicas == wanted
    && (updated.status_replicas == wanted
        && (updated.available_replicas == wanted && leb generation updated.observed_generation))

-- What `Kind` asks of deployment.go.
abbrev pub deployments : {W : Type 0} → Cluster W → Kind W
deployments c = record {
  get = c.get_deployment;
  available = is_available;
  not_healthy = deployments_not_healthy;
  namespace_empty = deployment_namespace_empty;
  not_found = no_deployment;
  invalid_interval = deployment_invalid_interval;
  validation_failed = deployment_failed;
}

module _ {W : Type 0} (c : Cluster W) where
  unfoldable pub get_deployment : String → Action W (List Workload)
  get_deployment namespace =
      handle (c.list_deployments namespace) (λ e. fail listing_deployment)
        (λ items. if is_empty items then fail no_deployment else ret items)

  -- The loop of `storeDeploymentsByNamespace`, with the map built so far.
  abbrev store_loop :
      Dict String (List Workload) → List String → Action W (Dict String (List Workload))
  store_loop found [] = ret found
  store_loop found (n ∷ namespaces) =
      if n == ""
      then store_loop found namespaces
      else (do items ← get_deployment n; store_loop (insert n items found) namespaces)

  unfoldable pub store_deployments_by_namespace :
      List String → Action W (Dict String (List Workload))
  unfolding get_deployment insert
  store_deployments_by_namespace namespaces =
      if is_empty namespaces then fail deployment_no_namespace else (do
        found ← store_loop [] namespaces
        if is_empty found then fail no_deployment else ret found)

  unfoldable pub check_deployment_status : String → Workload → Action W Unit
  unfolding check_status is_available
  check_deployment_status = check_status c (deployments c)

  -- The first function that is polled.
  unfoldable pub deployment_condition : String → Workload → Action W Bool
  unfolding condition is_available
  deployment_condition = condition c (deployments c)

  module _ (interval timeout : Duration) where
    unfoldable pub validate_deployments_by_namespace :
        List String → Dict String (List Workload) → Action W Unit
    unfolding validate_by_namespace is_available
    validate_deployments_by_namespace = validate_by_namespace c (deployments c) interval timeout

    unfoldable pub check_deployments : List String → Action W Unit
    unfolding store_deployments_by_namespace validate_deployments_by_namespace
    check_deployments namespaces =
        handle (store_deployments_by_namespace namespaces)
          (λ e. if is_no_deployment e then ret tt else fail e)
          (λ found. validate_deployments_by_namespace namespaces found)
