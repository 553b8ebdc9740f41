-- ===== src/Framework/Kubernetes.antt =====
-- The Kubernetes objects that the checks read, and the client that reads them. The client and the
-- helpers `retry.RetryOnConflict` and `wait.PollUntilContextTimeout` are parameters.
pub mod Laws
pub mod Returned
pub mod Failed
pub mod Waiting
use rhobs.Base.{ℕ, String, Bool, true, false, Option, List}
use rhobs.Base.Dict.{Dict}
use rhobs.Framework.{Action}

-- A `time.Duration`.
pub data Duration : Type 0 where
  nanoseconds : ℕ → Duration
  minus_nanoseconds : ℕ → Duration

-- `d.Seconds() > 0`
abbrev pub is_positive : Duration → Bool
is_positive (nanoseconds ℕ.zero) = false
is_positive (nanoseconds (ℕ.suc n)) = true
is_positive (minus_nanoseconds n) = false

-- A deployment or a stateful set: what the checks read of it.
pub record Workload : Type 0 where
  pub name : String
  pub generation : ℕ
  pub replicas : Option ℕ
  pub match_labels : Option (Dict String String)
  pub updated_replicas : ℕ
  pub status_replicas : ℕ
  pub available_replicas : ℕ
  pub current_replicas : ℕ
  pub observed_generation : ℕ

pub record Port : Type 0 where
  pub name : String
  pub port : ℕ

pub record Service : Type 0 where
  pub name : String
  pub ports : List Port

pub record Subset : Type 0 where
  pub ports : List Port
  pub addresses : List String

pub record ContainerStatus : Type 0 where
  pub name : String
  pub restart_count : ℕ
  pub is_waiting : Bool
  pub was_terminated : Bool

pub record Pod : Type 0 where
  pub name : String
  pub phase : String
  pub containers : List String
  pub statuses : List ContainerStatus

-- The operations of the packages that the checks import.
pub record Cluster (W : Type 0) : Type 0 where
  pub list_deployments : (namespace : String) → Action W (List Workload)
  pub get_deployment : (namespace name : String) → Action W Workload
  pub list_stateful_sets : (namespace : String) → Action W (List Workload)
  pub get_stateful_set : (namespace name : String) → Action W Workload
  pub list_services : (namespace : String) → Action W (List Service)
  pub get_service : (namespace name : String) → Action W Service
  pub get_endpoints : (namespace name : String) → Action W (List Subset)
  pub list_pods : (namespace : String) → Dict String String → Action W (List Pod)
  pub get_logs : (namespace pod container : String) → Action W String
  pub retry_on_conflict : Action W Unit → Action W Unit
  pub poll_until_context_timeout : (interval timeout : Duration) → Action W Bool → Action W Unit
