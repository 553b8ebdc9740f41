-- ===== src/Framework/StatefulSets.antt =====
-- tests/integration_tests/framework/pkg/statefulset/statefulset.go. What is only written to the log is
-- left out.
pub mod Verdict
pub mod Examined
pub mod Steady
pub mod Listing
use rhobs.Base.{
  ℕ, String, Bool, true, false, not, ◌&&◌, ◌||◌, ◌==◌, leb, nat_comparable, text_comparable,
  if◌then◌else◌, Option, none, some, List, [], ◌∷◌,
}
use rhobs.Base.Dict.{Dict, lookup, insert}
use rhobs.Framework.{
  Action, ErrorLists, joined, ret, fail, handle, ◌>>=◌, errors_of, deref, for_each, is_empty,
}
use rhobs.Framework.Errors.{
  Failure, listing_stateful_set, no_stateful_set, stateful_set_no_namespace,
  stateful_set_not_healthy, stateful_set_namespace_empty, stateful_set_invalid_interval,
  stateful_set_failed, is_no_stateful_set,
}
use rhobs.Framework.Kubernetes.{Cluster, Workload, Duration, is_positive}
use rhobs.Framework.Workloads.{Kind, check_status, condition, validate_by_namespace}

-- The condition of `checkStatefulSetStatus`, on the stateful set and its update.
unfoldable pub is_current : (wanted generation : ℕ) → Workload → Bool
is_current wanted generation updated =
    updated.updated_replicas == wanted
    && (updated.status_replicas == wanted
        && (updated.current_replicas == wanted && leb generation updated.observed_generation))

-- What `Kind` asks of statefulset.go.
abbrev pub stateful_sets : {W : Type 0} → Cluster W → Kind W
stateful_sets c = record {
  get = c.get_stateful_set;
  available = is_current;
  not_healthy = stateful_set_not_healthy;
  namespace_empty = stateful_set_namespace_empty;
  not_found = no_stateful_set;
  invalid_interval = stateful_set_invalid_interval;
  validation_failed = stateful_set_failed;
}

module _ {W : Type 0} (c : Cluster W) where
  unfoldable pub get_stateful_set : String → Action W (List Workload)
  get_stateful_set namespace =
      handle (c.list_stateful_sets namespace) (λ e. fail listing_stateful_set)
        (λ items. if is_empty items then fail no_stateful_set else ret items)

  -- The loop of `storeStatefulSetsByNamespace`, with the map built so far.
  abbrev store_loop :
      Dict String (List Workload) → List String → Action W (Dict String (List Workload))
  store_loop found [] = ret found
  store_loop found (n ∷ namespaces) =
      if n == ""
      then store_loop found namespaces
      else handle (get_stateful_set n)
          (λ e. if is_no_stateful_set e then store_loop found namespaces else fail e)
          (λ items. store_loop (insert n items found) namespaces)

  unfoldable pub store_stateful_sets_by_namespace :
      List String → Action W (Dict String (List Workload))
  unfolding get_stateful_set insert
  store_stateful_sets_by_namespace namespaces =
      if is_empty namespaces then fail stateful_set_no_namespace else (do
        found ← store_loop [] namespaces
        if is_empty found then fail no_stateful_set else ret found)

  unfoldable pub check_stateful_set_status : String → Workload → Action W Unit
  unfolding check_status is_current
  check_stateful_set_status = check_status c (stateful_sets c)

  -- The first function that is polled.
  unfoldable pub stateful_set_condition : String → Workload → Action W Bool
  unfolding condition is_current
  stateful_set_condition = condition c (stateful_sets c)

  module _ (interval timeout : Duration) where
    unfoldable pub validate_stateful_sets_by_namespace :
        List String → Dict String (List Workload) → Action W Unit
    unfolding validate_by_namespace is_current
    validate_stateful_sets_by_namespace = validate_by_namespace c (stateful_sets c) interval timeout

    unfoldable pub check_stateful_sets : List String → Action W Unit
    unfolding store_stateful_sets_by_namespace validate_stateful_sets_by_namespace
    check_stateful_sets namespaces =
        handle (store_stateful_sets_by_namespace namespaces)
          (λ e. if is_no_stateful_set e then ret tt else fail e)
          (λ found. validate_stateful_sets_by_namespace namespaces found)
