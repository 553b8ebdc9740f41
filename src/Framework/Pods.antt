-- ===== src/Framework/Pods.antt =====
-- tests/integration_tests/framework/pkg/pod/pod.go. What is only written to the log is left out.
pub mod Health
pub mod Forward
pub mod Steady
use rhobs.Base.{
  ℕ, String, Bool, true, false, not, ◌&&◌, ◌==◌, leb, text_comparable, if◌then◌else◌, List, [], ◌∷◌,
}
use rhobs.Base.Dict.{Dict}
use rhobs.Framework.{Action, ret, fail, handle, ◌>>=◌, is_empty}
use rhobs.Framework.Errors.{
  Failure, fetch_logs, pod_no_namespace, listing_pods, pod_not_running, no_pod, container_restarted,
}
use rhobs.Framework.Kubernetes.{Cluster, Pod, ContainerStatus}

-- The error of a restarted container: `container.RestartCount >= 1` and both pointers are set.
abbrev pub is_restarted : ContainerStatus → Bool
is_restarted s = leb 1 s.restart_count && (s.is_waiting && s.was_terminated)

abbrev pub is_running : Pod → Bool
is_running p = p.phase == "Running"

module _ {W : Type 0} (c : Cluster W) (namespace : String) where
  -- The loop of `getPodLogs` over the containers.
  abbrev logs_of : String → List String → Action W Unit
  logs_of pod [] = ret tt
  logs_of pod (x ∷ xs) =
      handle (c.get_logs namespace pod x) (λ e. fail fetch_logs) (λ logs. logs_of pod xs)

  abbrev pub get_pod_logs : Pod → Action W Unit
  get_pod_logs p = logs_of p.name p.containers

  -- The loops of `checkPodStatus`, over the container statuses of a pod and over the pods.
  abbrev check_statuses : Pod → List ContainerStatus → Action W Unit
  check_statuses p [] = ret tt
  check_statuses p (s ∷ ss) =
      if is_restarted s
      then (do u ← get_pod_logs p; fail (container_restarted s.name s.restart_count))
      else check_statuses p ss

  abbrev check_pods : List Pod → Action W Unit
  check_pods [] = ret tt
  check_pods (p ∷ ps) =
      if not (is_running p)
      then fail pod_not_running
      else (do u ← check_statuses p p.statuses; check_pods ps)

  unfoldable pub check_pod_status : List Pod → Action W Unit
  check_pod_status ps =
      if namespace == ""
      then fail pod_no_namespace
      else if is_empty ps
      then fail no_pod
      else check_pods ps

  -- The loop of `checkPodHealth` over the pods.
  abbrev pod_logs : List Pod → Action W Unit
  pod_logs [] = ret tt
  pod_logs (p ∷ ps) =
      if not (is_running p) then fail pod_not_running else (do u ← get_pod_logs p; pod_logs ps)

  unfoldable pub check_pod_health : Dict String String → Action W Unit
  unfolding check_pod_status
  check_pod_health labels =
      if namespace == ""
      then fail pod_no_namespace
      else handle (c.list_pods namespace labels) (λ e. fail listing_pods)
          (λ ps. do u ← check_pod_status ps; pod_logs ps)

  unfoldable pub get_pod_status : Dict String String → Action W Unit
  unfolding check_pod_health
  get_pod_status labels = check_pod_health labels
