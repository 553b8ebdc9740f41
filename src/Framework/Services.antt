-- ===== src/Framework/Services.antt =====
-- tests/integration_tests/framework/pkg/service/service.go. What is only written to the log is left out.
pub mod Health
pub mod Listing
pub mod Verdict
pub mod Examined
pub mod Steady
use rhobs.Base.{
  ℕ, String, Bool, true, false, not, ◌&&◌, ◌||◌, ◌==◌, nat_comparable, text_comparable,
  if◌then◌else◌, any, List, [], ◌∷◌,
}
use rhobs.Base.Dict.{Dict, lookup, insert}
use rhobs.Framework.{Action, ErrorLists, ret, fail, handle, ◌>>=◌, errors_of, for_each, is_empty}
use rhobs.Framework.Errors.{
  Failure, listing_service, no_service, service_no_namespace, service_not_healthy,
  service_namespace_empty, service_invalid_interval, service_failed, is_no_service,
}
use rhobs.Framework.Kubernetes.{Cluster, Service, Port, Subset, Duration, is_positive}
use rhobs.Framework.Workloads.{items_of}

-- The two inner loops of `checkServiceStatus`: a subset with addresses has the port of the service,
-- by name and number.
unfoldable pub serves : Port → List Subset → Bool
serves p subsets =
    any
      (λ s. any (λ q. q.name == p.name && (q.port == p.port && not (is_empty s.addresses))) s.ports)
      subsets

module _ {W : Type 0} (c : Cluster W) where
  unfoldable pub get_service : String → Action W (List Service)
  get_service namespace =
      if namespace == ""
      then fail service_no_namespace
      else handle (c.list_services namespace) (λ e. fail listing_service)
          (λ items. if is_empty items then fail no_service else ret items)

  -- The loop of `storeServicesByNamespace`, with the map built so far.
  abbrev store_loop :
      Dict String (List Service) → List String → Action W (Dict String (List Service))
  store_loop found [] = ret found
  store_loop found (n ∷ namespaces) =
      if n == ""
      then store_loop found namespaces
      else (do items ← get_service n; store_loop (insert n items found) namespaces)

  unfoldable pub store_services_by_namespace : List String → Action W (Dict String (List Service))
  unfolding get_service insert
  store_services_by_namespace namespaces =
      if is_empty namespaces then fail service_no_namespace else (do
        found ← store_loop [] namespaces
        if is_empty found then fail no_service else ret found)

  -- The loop over the ports: whether one of them is served.
  abbrev pub ports_loop : (namespace name : String) → List Port → Action W Bool
  ports_loop namespace name [] = ret false
  ports_loop namespace name (p ∷ ports) = do
    subsets ← c.get_endpoints namespace name
    if serves p subsets then ret true else ports_loop namespace name ports

  -- The function that `checkServiceStatus` retries.
  unfoldable pub service_attempt : String → Service → Action W Unit
  unfolding serves
  service_attempt namespace s = do
    updated ← c.get_service namespace s.name
    served ← ports_loop namespace s.name updated.ports
    if served then ret tt else fail service_not_healthy

  unfoldable pub check_service_status : String → Service → Action W Unit
  unfolding service_attempt
  check_service_status namespace s = c.retry_on_conflict (service_attempt namespace s)

  -- The function that is polled: an error is not passed on.
  unfoldable pub service_condition : String → Service → Action W Bool
  unfolding check_service_status
  service_condition namespace s =
      handle (check_service_status namespace s) (λ e. ret false) (λ u. ret true)

  module _ (interval timeout : Duration) where
    -- One turn of the inner loop of `validateServicesByNamespace`; there is one list of errors.
    unfoldable pub validate_service : String → Service → Action W ErrorLists
    unfolding service_condition
    validate_service namespace s = do
      errors ←
          errors_of (c.poll_until_context_timeout interval timeout (service_condition namespace s))
      ret (errors, [])

    unfoldable pub validate_services_by_namespace :
        List String → Dict String (List Service) → Action W Unit
    unfolding validate_service lookup
    validate_services_by_namespace namespaces found =
        if is_empty namespaces
        then fail service_namespace_empty
        else if is_empty found
        then fail no_service
        else if not (is_positive interval) || not (is_positive timeout)
        then fail service_invalid_interval
        else (do
          errors ←
              for_each (λ n. for_each (validate_service n) (items_of (lookup n found))) namespaces
          if not (is_empty errors.0) || not (is_empty errors.1)
              then fail service_failed
              else ret tt)

    unfoldable pub check_services : List String → Action W Unit
    unfolding store_services_by_namespace validate_services_by_namespace
    check_services namespaces =
        handle (store_services_by_namespace namespaces)
          (λ e. if is_no_service e then ret tt else fail e)
          (λ found. validate_services_by_namespace namespaces found)
