-- ===== src/Framework/Deployments/Verdict.antt =====
-- What is known when `CheckDeployments` returns no error.
use rhobs.Base.{◌≡◌, text_comparable, ◌⊎◌, inl, inr, String, List}
use rhobs.Base.Dict.{Dict}
use rhobs.Framework.{Result, returned, failed, ret}
use rhobs.Framework.Errors.{external, no_deployment, is_no_deployment, is_no_deployment-only}
use rhobs.Framework.Kubernetes.{Cluster, Workload, Duration}
use rhobs.Framework.Kubernetes.Laws.{Time, Lawful, Polled}
use rhobs.Framework.Kubernetes.Returned.{excused-returned}
use rhobs.Framework.Workloads.Verdict.{
  AllHealthy, validate-healthy, as_condition, evaluations, run-EndsAtOnce,
}
use rhobs.Framework.Deployments.{
  deployments, deployment_condition, validate_deployments_by_namespace,
  store_deployments_by_namespace, check_deployments,
}

module _ {W : Type 0} {c : Cluster W} {t : Time W} (l : Lawful c t) (i o : Duration) where
  -- When CheckDeployments returns no error, either the listing of the deployments ended with
  -- ErrNoDeployment, or it gave a map, and every deployment of the map in the given namespaces was
  -- seen at its wanted replicas, and its pods healthy, while the check ran. It rests on the client
  -- and the two waiting helpers behaving as documented.
  pub check_deployments-healthy :
      (namespaces : List String) (u w : W)
      → check_deployments c i o namespaces u ≡ (returned tt, w)
      → ((v : W) × (store_deployments_by_namespace c namespaces u ≡ (failed no_deployment, v)))
        ⊎ ((found : Dict String (List Workload)) × (v : W) × (store_deployments_by_namespace c
                namespaces u
              ≡ (returned found, v))
            × AllHealthy c (deployments c) t namespaces found v w)
  unfolding check_deployments validate_deployments_by_namespace
  check_deployments-healthy namespaces u w e =
      elim (excused-returned (store_deployments_by_namespace c namespaces) is_no_deployment
        no_deployment (ret tt) (λ found. validate_deployments_by_namespace c i o namespaces found)
        is_no_deployment-only e) [
          | inl (found, v, p, q) ↦ inr (
            found,
            v,
            p,
            validate-healthy (deployments c) l l.get_deployment_forward i o namespaces found v w q,
          )
          | inr (v, p, q) ↦ inl (v, p)
        ]

module _ {W : Type 0} (c : Cluster W) (t : Time W) (n : String) (d : Workload) where
  -- Any run of the poll of a deployment evaluates its condition at most once, however long the timeout:
  -- if the context ends before that, the result is its error; else the result is that of the
  -- one evaluation, a failed one included, which also leaves the final world. A run is one
  -- that the documentation of `PollUntilContextTimeout` allows.
  pub deployment_polled_once :
      (u w : W) (r : Result Unit) (p : Polled t (deployment_condition c n d) u r w)
      → ((evaluations p ≡ 0) × (message : String) × (r ≡ failed (external message)))
        ⊎ ((evaluations p ≡ 1)
            × (v : W) × t.Reaches u v
            × (deployment_condition c n d v ≡ (as_condition r, w)))
  unfolding deployment_condition
  deployment_polled_once u w r p = run-EndsAtOnce c t (deployments c) n d u w r p
