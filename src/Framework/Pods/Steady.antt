-- ===== src/Framework/Pods/Steady.antt =====
-- The check of pods that stay healthy returns.
use rhobs.Base.{
  ◌≡◌, true, false, ◌==◌, text_comparable, if◌then◌else◌, String, List, [], ◌∷◌, any, all, arith,
}
use rhobs.Base.Dict.{Dict}
use rhobs.Framework.{Action, fail, ◌>>=◌, handle, is_empty}
use rhobs.Framework.Errors.{
  fetch_logs, pod_not_running, container_restarted, listing_pods, pod_no_namespace, no_pod,
}
use rhobs.Framework.Kubernetes.{Cluster, Pod, ContainerStatus}
use rhobs.Framework.Kubernetes.Laws.{Time}
use rhobs.Framework.Pods.{
  is_restarted, get_pod_logs, logs_of, check_statuses, check_pods, check_pod_status, pod_logs,
  get_pod_status,
}
use rhobs.Framework.Pods.Health.{is_healthy}
use rhobs.Framework.Steady.{Done, Meets, Meets-ret, Meets-bind, Meets-handle, Meets-else}

module _ {W : Type 0} (c : Cluster W) (t : Time W) (u : W) (namespace : String) where
  -- From `u` on the logs of every container can be read.
  abbrev pub Logged : Type 0
  Logged =
      (pod container : String) → Meets t u (λ logs. Unit {0}) (c.get_logs namespace pod container)

  -- From `u` on pods are listed for the labels, and all of them are healthy.
  abbrev pub PodsSteady : Dict String String → Type 0
  PodsSteady labels =
      Meets t u (λ ps. (is_empty ps ≡ false) × (all is_healthy ps ≡ true))
        (c.list_pods namespace labels)

module _ {W : Type 0} (c : Cluster W) (t : Time W) (u : W) (namespace : String)
    (named : (namespace == "") ≡ false) (logged : Logged c t u namespace) where
  logs-Done : (pod : String) (xs : List String) → Done t u (logs_of c namespace pod xs)
  logs-Done pod [] = Meets-ret t u tt tt
  logs-Done pod (x ∷ xs) =
      Meets-handle t u (c.get_logs namespace pod x) (λ e. fail fetch_logs)
        (λ logs. logs_of c namespace pod xs) (logged pod x) λ logs p. logs-Done pod xs

  statuses-Done :
      (p : Pod) (ss : List ContainerStatus)
      → any is_restarted ss ≡ false
      → Done t u (check_statuses c namespace p ss)
  statuses-Done p [] h = Meets-ret t u tt tt
  statuses-Done p (s ∷ ss) h =
      Meets-else t u
        (get_pod_logs c namespace p >>= λ x. fail (container_restarted s.name s.restart_count))
        (check_statuses c namespace p ss) (ground (arith, h))
        (statuses-Done p ss (ground (arith, h)))

  pods-Done : (ps : List Pod) → all is_healthy ps ≡ true → Done t u (check_pods c namespace ps)
  pods-Done [] h = Meets-ret t u tt tt
  pods-Done (p ∷ ps) h =
      Meets-else t u (fail pod_not_running)
        (check_statuses c namespace p p.statuses >>= λ x. check_pods c namespace ps)
        (ground (arith, h))
        (Meets-bind t u (check_statuses c namespace p p.statuses) (λ x. check_pods c namespace ps)
          (statuses-Done p p.statuses (ground (arith, h))) λ x d. pods-Done ps (ground (arith, h)))

  pod_logs-Done : (ps : List Pod) → all is_healthy ps ≡ true → Done t u (pod_logs c namespace ps)
  pod_logs-Done [] h = Meets-ret t u tt tt
  pod_logs-Done (p ∷ ps) h =
      Meets-else t u (fail pod_not_running)
        (get_pod_logs c namespace p >>= λ x. pod_logs c namespace ps) (ground (arith, h))
        (Meets-bind t u (get_pod_logs c namespace p) (λ x. pod_logs c namespace ps)
          (logs-Done p.name p.containers) λ x d. pod_logs-Done ps (ground (arith, h)))

  -- Where the logs can be read, and the pods stay healthy, their check returns.
  pub get_pod_status-Done :
      (labels : Dict String String)
      → PodsSteady c t u namespace labels
      → Done t u (get_pod_status c namespace labels)
  unfolding get_pod_status check_pod_status
  get_pod_status-Done labels s =
      let rest : List Pod → Action W Unit =
        λ ps. check_pod_status c namespace ps >>= λ x. pod_logs c namespace ps in
      Meets-else t u (fail pod_no_namespace)
        (handle (c.list_pods namespace labels) (λ e. fail listing_pods) rest) named
        (Meets-handle t u (c.list_pods namespace labels) (λ e. fail listing_pods) rest s
          λ ps h.
            Meets-bind t u (check_pod_status c namespace ps) (λ x. pod_logs c namespace ps)
              (Meets-else t u (fail pod_no_namespace)
                (if is_empty ps then fail no_pod else check_pods c namespace ps) named
                (Meets-else t u (fail no_pod) (check_pods c namespace ps) h.0 (pods-Done ps h.1)))
              λ x d. pod_logs-Done ps h.1)
