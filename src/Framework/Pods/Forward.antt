-- ===== src/Framework/Pods/Forward.antt =====
-- The check of the pods takes time.
use rhobs.Base.{String, not, ◌==◌, text_comparable, if◌then◌else◌, List, [], ◌∷◌}
use rhobs.Base.Dict.{Dict}
use rhobs.Framework.{fail, ◌>>=◌, handle, is_empty}
use rhobs.Framework.Errors.{
  fetch_logs, pod_not_running, container_restarted, listing_pods, pod_no_namespace, no_pod,
}
use rhobs.Framework.Kubernetes.{Cluster, Pod, ContainerStatus}
use rhobs.Framework.Kubernetes.Laws.{
  Time, Lawful, Forward, bind-Forward, handle-Forward, choice-Forward,
}
use rhobs.Framework.Pods.{
  is_restarted, is_running, get_pod_logs, logs_of, check_statuses, check_pods, check_pod_status,
  pod_logs, get_pod_status,
}

module _ {W : Type 0} {c : Cluster W} {t : Time W} (l : Lawful c t) (namespace : String) where
  logs-Forward : (name : String) (xs : List String) → Forward t (logs_of c namespace name xs)
  logs-Forward name [] w = t.now w
  logs-Forward name (x ∷ xs) w =
      handle-Forward t (c.get_logs namespace name x) (λ e. fail fetch_logs)
        (λ logs. logs_of c namespace name xs) (l.get_logs_forward namespace name x) (λ e w. t.now w)
        (λ logs w. logs-Forward name xs w) w

  get_pod_logs-Forward : (p : Pod) → Forward t (get_pod_logs c namespace p)
  get_pod_logs-Forward p w = logs-Forward p.name p.containers w

  statuses-Forward :
      (p : Pod) (ss : List ContainerStatus) → Forward t (check_statuses c namespace p ss)
  statuses-Forward p [] w = t.now w
  statuses-Forward p (s ∷ ss) w =
      choice-Forward t (is_restarted s)
        (get_pod_logs c namespace p >>= λ u. fail (container_restarted s.name s.restart_count))
        (check_statuses c namespace p ss)
        (bind-Forward t (get_pod_logs c namespace p) _ (get_pod_logs-Forward p) (λ u w. t.now w))
        (λ w. statuses-Forward p ss w) w

  pods-Forward : (ps : List Pod) → Forward t (check_pods c namespace ps)
  pods-Forward [] w = t.now w
  pods-Forward (p ∷ ps) w =
      choice-Forward t (not (is_running p)) (fail pod_not_running)
        (check_statuses c namespace p p.statuses >>= λ u. check_pods c namespace ps) (λ w. t.now w)
        (bind-Forward t (check_statuses c namespace p p.statuses) (λ u. check_pods c namespace ps)
          (statuses-Forward p p.statuses) (λ u w. pods-Forward ps w))
        w

  pod_logs-Forward : (ps : List Pod) → Forward t (pod_logs c namespace ps)
  pod_logs-Forward [] w = t.now w
  pod_logs-Forward (p ∷ ps) w =
      choice-Forward t (not (is_running p)) (fail pod_not_running)
        (get_pod_logs c namespace p >>= λ u. pod_logs c namespace ps) (λ w. t.now w)
        (bind-Forward t (get_pod_logs c namespace p) (λ u. pod_logs c namespace ps)
          (get_pod_logs-Forward p) (λ u w. pod_logs-Forward ps w))
        w

  check_pod_status-Forward : (ps : List Pod) → Forward t (check_pod_status c namespace ps)
  unfolding check_pod_status
  check_pod_status-Forward ps =
      choice-Forward t (namespace == "") (fail pod_no_namespace)
        (if is_empty ps then fail no_pod else check_pods c namespace ps) (λ w. t.now w)
        (choice-Forward t (is_empty ps) (fail no_pod) (check_pods c namespace ps) (λ w. t.now w)
          (pods-Forward ps))

  pub get_pod_status-Forward :
      (labels : Dict String String) → Forward t (get_pod_status c namespace labels)
  unfolding get_pod_status
  get_pod_status-Forward labels =
      choice-Forward t (namespace == "") (fail pod_no_namespace)
        (handle (c.list_pods namespace labels) (λ e. fail listing_pods)
          (λ ps. check_pod_status c namespace ps >>= λ u. pod_logs c namespace ps))
        (λ w. t.now w)
        (handle-Forward t (c.list_pods namespace labels) _ _ (l.list_pods_forward namespace labels)
          (λ e w. t.now w)
          (λ ps.
            bind-Forward t (check_pod_status c namespace ps) _ (check_pod_status-Forward ps)
              (λ u. pod_logs-Forward ps)))
