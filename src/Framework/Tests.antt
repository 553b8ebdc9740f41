-- ===== src/Framework/Tests.antt =====
-- The theorems on tests/integration_tests/framework/ at concrete inputs: a cluster whose world is a
-- clock that each call moves on.
mod Program
mod Steady
use rhobs.Base.{
  ℕ, suc, ◌≤◌, ◌≡◌, refl, Bool, true, false, ◌==◌, text_comparable, if◌then◌else◌, ◌⊎◌, String,
  some, List, [], ◌∷◌, All, arith,
}
use rhobs.Base.Dict.{Dict}
use rhobs.Framework.{Action, Result, returned, failed, crashed}
use rhobs.Framework.Errors.{
  external, no_deployment, no_stateful_set, no_service, deployments_not_healthy,
}
use rhobs.Framework.Kubernetes.{Cluster, Workload, Pod, Port, Service, Duration, nanoseconds}
use rhobs.Framework.Kubernetes.Laws.{
  Time, Lawful, Polled, deadline, holds, breaks, crashes, again, last,
}
use rhobs.Framework.Deployments.{
  deployments, store_deployments_by_namespace, check_deployments, deployment_condition,
}
use rhobs.Framework.Deployments.Listing.{
  none_left, next, Known, check_deployments-skips, store_deployments-listed,
}
use rhobs.Framework.StatefulSets.{
  stateful_sets, store_stateful_sets_by_namespace, check_stateful_sets,
}
use rhobs.Framework.StatefulSets.Verdict.{check_stateful_sets-healthy}
use rhobs.Framework.StatefulSets.Listing as Sets
use rhobs.Framework.StatefulSets.Listing.{store_stateful_sets-listed}
use rhobs.Framework.Services.{store_services_by_namespace, check_services}
use rhobs.Framework.Services.Verdict.{AllServed, check_services-served}
use rhobs.Framework.Main.{main, success, main-passes}
use rhobs.Framework.Workloads.Verdict.{AllHealthy, evaluations}
use rhobs.Framework.Deployments.Verdict.{check_deployments-healthy, deployment_polled_once}

-- A call that answers and takes one step of time.
abbrev answer : {A : Type 0} → A → Action ℕ A
answer a w = (returned a, suc w)

-- A poll that checks once and then gives up.
abbrev poll_result : Result Bool × ℕ → Result Unit × ℕ
poll_result (returned true, w) = (returned tt, w)
poll_result (returned false, w) = (failed (external "context deadline exceeded"), w)
poll_result (failed e, w) = (failed e, w)
poll_result (crashed, w) = (crashed, w)

abbrev ready : Workload
ready = record {
  name = "thanos-query";
  generation = 2;
  replicas = some 3;
  match_labels = some (("app", "thanos-query") ∷ []);
  updated_replicas = 3;
  status_replicas = 3;
  available_replicas = 3;
  current_replicas = 3;
  observed_generation = 2;
}

abbrev scaling : Workload
scaling = record ready { available_replicas = 1 }

abbrev running : Pod
running = record {
  name = "thanos-query-0";
  phase = "Running";
  containers = "query" ∷ [];
  statuses = [];
}

-- A cluster with one deployment in one namespace.
abbrev one_deployment : Workload → Cluster ℕ
one_deployment d = record {
  list_deployments = λ n. answer (if n == "rhobs" then d ∷ [] else []);
  get_deployment = λ n name. answer d;
  list_stateful_sets = λ n. answer [];
  get_stateful_set = λ n name. answer d;
  list_services = λ n. answer [];
  get_service = λ n name. answer (record { name = name; ports = [] });
  get_endpoints = λ n name. answer [];
  list_pods = λ n labels. answer (running ∷ []);
  get_logs = λ n p x. answer "level=info";
  retry_on_conflict = λ fn. fn;
  poll_until_context_timeout = λ i o k w. poll_result (k w);
}

abbrev clock : Time ℕ
clock = record {
  Reaches = λ u v. u ≤ v;
  now = λ w. omega arith;
  later = λ p q. omega (arith, p, q);
}

poll_result-Polled :
    (k : Action ℕ Bool) (u : ℕ) (x : Result Bool × ℕ)
    → k u ≡ x
    → Polled clock k u (poll_result x).0 (poll_result x).1
poll_result-Polled k u (returned true, w) e = holds (clock.now u) e
poll_result-Polled k u (returned false, w) e = again (clock.now u) e (deadline (clock.now w))
poll_result-Polled k u (failed e', w) e = breaks (clock.now u) e
poll_result-Polled k u (crashed, w) e = crashes (clock.now u) e

one_deployment-Lawful : (d : Workload) → Lawful (one_deployment d) clock
one_deployment-Lawful d = record {
  list_deployments_forward = λ n w. omega arith;
  get_deployment_forward = λ n x w. omega arith;
  list_stateful_sets_forward = λ n w. omega arith;
  get_stateful_set_forward = λ n x w. omega arith;
  list_services_forward = λ n w. omega arith;
  get_service_forward = λ n x w. omega arith;
  get_endpoints_forward = λ n x w. omega arith;
  list_pods_forward = λ n x w. omega arith;
  get_logs_forward = λ n p x w. omega arith;
  retried = λ fn w. last (clock.now w) refl;
  polled = λ i o k w. poll_result-Polled k w (k w) refl;
}

abbrev minute : Duration
minute = nanoseconds 60000000000

healthy_run :
    check_deployments (one_deployment ready) minute minute ("rhobs" ∷ []) 0 ≡ (returned tt, 4)
unfolding check_deployments
healthy_run = refl

check_deployments-healthy_example :
    ((v : ℕ) × (store_deployments_by_namespace (one_deployment ready) ("rhobs" ∷ []) 0
        ≡ (failed no_deployment, v)))
    ⊎ ((found : Dict String (List Workload)) × (v : ℕ) × (store_deployments_by_namespace
            (one_deployment ready)
            ("rhobs" ∷ [])
            0
          ≡ (returned found, v))
        × AllHealthy
            (one_deployment ready)
            (deployments (one_deployment ready))
            clock
            ("rhobs" ∷ [])
            found
            v
            4)
check_deployments-healthy_example =
    check_deployments-healthy (one_deployment-Lawful ready) minute minute ("rhobs" ∷ []) 0 4
      healthy_run

listing_run :
    store_deployments_by_namespace (one_deployment ready) ("rhobs" ∷ "" ∷ []) 0
    ≡ (returned (("rhobs", ready ∷ []) ∷ []), 1)
unfolding store_deployments_by_namespace
listing_run = refl

store_deployments-listed_example :
    All (Known (one_deployment-Lawful ready) (("rhobs", ready ∷ []) ∷ []) 0 1) ("rhobs" ∷ "" ∷ [])
store_deployments-listed_example =
    store_deployments-listed (one_deployment-Lawful ready) ("rhobs" ∷ "" ∷ [])
      (("rhobs", ready ∷ []) ∷ []) 0 1 listing_run

-- The deployment of the first namespace is not available, and the second namespace has none.
check_deployments-skips_example :
    check_deployments (one_deployment scaling) minute minute ("rhobs" ∷ "default" ∷ []) 0
    ≡ (returned tt, 2)
check_deployments-skips_example =
    check_deployments-skips (one_deployment scaling) minute minute ("rhobs" ∷ []) [] "default" 0 1 2
      (next refl refl refl none_left) refl refl

abbrev scaling_result : Result Unit
scaling_result = failed deployments_not_healthy

-- The first evaluation fails, and with it the poll.
scaling_run :
    Polled clock (deployment_condition (one_deployment scaling) "rhobs" scaling) 0 scaling_result 1
unfolding deployment_condition
scaling_run = breaks (clock.now 0) refl

deployment_polled_once_example :
    ((evaluations scaling_run ≡ 0)
      × (message : String) × (scaling_result ≡ failed (external message)))
    ⊎ ((evaluations scaling_run ≡ 1)
        × (v : ℕ) × (0 ≤ v)
        × (deployment_condition (one_deployment scaling) "rhobs" scaling v
            ≡ (failed deployments_not_healthy, 1)))
deployment_polled_once_example =
    deployment_polled_once (one_deployment scaling) clock "rhobs" scaling 0 1 scaling_result
      scaling_run

-- The deployment, as a stateful set, and a service with its endpoints.
abbrev web : Port
web = record { name = "http"; port = 9090 }

abbrev full : Cluster ℕ
full = record (one_deployment ready) {
  list_stateful_sets = λ n. answer (if n == "rhobs" then ready ∷ [] else []);
  list_services = λ n. answer (record { name = "thanos-query"; ports = web ∷ [] } ∷ []);
  get_service = λ n name. answer (record { name = name; ports = web ∷ [] });
  get_endpoints = λ n name. answer (record { ports = web ∷ []; addresses = "10.0.0.1" ∷ [] } ∷ []);
}

full-Lawful : Lawful full clock
full-Lawful = record {
  list_deployments_forward = λ n w. omega arith;
  get_deployment_forward = λ n x w. omega arith;
  list_stateful_sets_forward = λ n w. omega arith;
  get_stateful_set_forward = λ n x w. omega arith;
  list_services_forward = λ n w. omega arith;
  get_service_forward = λ n x w. omega arith;
  get_endpoints_forward = λ n x w. omega arith;
  list_pods_forward = λ n x w. omega arith;
  get_logs_forward = λ n p x w. omega arith;
  retried = λ fn w. last (clock.now w) refl;
  polled = λ i o k w. poll_result-Polled k w (k w) refl;
}

stateful_sets_run :
    check_stateful_sets full minute minute ("rhobs" ∷ "default" ∷ []) 0 ≡ (returned tt, 5)
unfolding check_stateful_sets
stateful_sets_run = refl

check_stateful_sets-healthy_example :
    ((v : ℕ) × (store_stateful_sets_by_namespace full ("rhobs" ∷ "default" ∷ []) 0
        ≡ (failed no_stateful_set, v)))
    ⊎ ((found : Dict String (List Workload)) × (v : ℕ) × (store_stateful_sets_by_namespace full
            ("rhobs" ∷ "default" ∷ [])
            0
          ≡ (returned found, v))
        × AllHealthy full (stateful_sets full) clock ("rhobs" ∷ "default" ∷ []) found v 5)
check_stateful_sets-healthy_example =
    check_stateful_sets-healthy full-Lawful minute minute ("rhobs" ∷ "default" ∷ []) 0 5
      stateful_sets_run

sets_listing_run :
    store_stateful_sets_by_namespace full ("default" ∷ "rhobs" ∷ []) 0
    ≡ (returned (("rhobs", ready ∷ []) ∷ []), 2)
unfolding store_stateful_sets_by_namespace
sets_listing_run = refl

store_stateful_sets-listed_example :
    All (Sets.Known full-Lawful (("rhobs", ready ∷ []) ∷ []) 0 2) ("default" ∷ "rhobs" ∷ [])
store_stateful_sets-listed_example =
    store_stateful_sets-listed full-Lawful ("default" ∷ "rhobs" ∷ []) (("rhobs", ready ∷ []) ∷ []) 0
      2 sets_listing_run

services_run : check_services full minute minute ("rhobs" ∷ []) 0 ≡ (returned tt, 3)
unfolding check_services
services_run = refl

check_services-served_example :
    ((v : ℕ) × (store_services_by_namespace full ("rhobs" ∷ []) 0 ≡ (failed no_service, v)))
    ⊎ ((found : Dict String (List Service)) × (v : ℕ) × (store_services_by_namespace full
            ("rhobs" ∷ [])
            0
          ≡ (returned found, v))
        × AllServed full clock ("rhobs" ∷ []) found v 3)
check_services-served_example =
    check_services-served full-Lawful minute minute ("rhobs" ∷ []) 0 3 services_run
