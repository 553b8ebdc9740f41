-- ===== src/Framework/Errors.antt =====
-- tests/integration_tests/framework/: the errors of the packages pod, deployment, statefulset and service.
use rhobs.Base.{ℕ, String, ◌≡◌, Bool, true, false, arith}

pub data Failure : Type 0 where
  -- An error of the Kubernetes client or of one of its helpers.
  external : String → Failure
  -- pod
  fetch_logs pod_no_namespace listing_pods pod_not_running no_pod : Failure
  container_restarted : (container : String) (restart_count : ℕ) → Failure
  -- deployment
  listing_deployment no_deployment deployment_no_namespace deployments_not_healthy
        deployment_namespace_empty deployment_invalid_interval deployment_failed :
      Failure
  -- statefulset
  listing_stateful_set no_stateful_set stateful_set_no_namespace stateful_set_not_healthy
        stateful_set_namespace_empty stateful_set_invalid_interval stateful_set_failed :
      Failure
  -- service
  listing_service no_service service_no_namespace service_not_healthy service_namespace_empty
        service_invalid_interval service_failed :
      Failure

-- `errors.Is(err, ErrNoDeployment)` and its siblings: none of the errors wraps another one.
abbrev pub is_no_deployment : Failure → Bool
is_no_deployment no_deployment = true
is_no_deployment e = false

abbrev pub is_no_stateful_set : Failure → Bool
is_no_stateful_set no_stateful_set = true
is_no_stateful_set e = false

abbrev pub is_no_service : Failure → Bool
is_no_service no_service = true
is_no_service e = false

pub is_no_deployment-only : (e : Failure) → is_no_deployment e ≡ true → e ≡ no_deployment
is_no_deployment-only e h = ground arith

pub is_no_stateful_set-only : (e : Failure) → is_no_stateful_set e ≡ true → e ≡ no_stateful_set
is_no_stateful_set-only e h = ground arith

pub is_no_service-only : (e : Failure) → is_no_service e ≡ true → e ≡ no_service
is_no_service-only e h = ground arith
