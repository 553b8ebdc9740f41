-- ===== src/Framework/Deployments/Steady.antt =====
-- The check of deployments that stay healthy returns.
use rhobs.Base.{
  ◌≡◌, refl, true, false, text_comparable, if◌then◌else◌, String, List, ◌∷◌, All, All-mono,
}
use rhobs.Base.Dict.{Dict, insert}
use rhobs.Framework.{ret, fail, ◌>>=◌, is_empty}
use rhobs.Framework.Errors.{
  listing_deployment, no_deployment, deployment_no_namespace, is_no_deployment,
}
use rhobs.Framework.Kubernetes.{Cluster, Workload, Duration, is_positive}
use rhobs.Framework.Kubernetes.Laws.{Time}
use rhobs.Framework.Steady.{Prompt, Done, Meets, Meets-ret, Meets-bind, Meets-handle, Meets-else}
use rhobs.Framework.Workloads.Stored.{Filled, store-Filled}
use rhobs.Framework.Workloads.Steady.{WorkloadSteady, Readable, validate_by_namespace-Done}
use rhobs.Framework.Deployments.{
  deployments, get_deployment, store_loop, store_deployments_by_namespace,
  validate_deployments_by_namespace, check_deployments,
}

module _ {W : Type 0} (c : Cluster W) (t : Time W) (u : W) where
  -- From `u` on deployments are listed in the namespace, they stay healthy, and logs can be read.
  pub record Deployed (n : String) : Type 0 where
    pub readable : Readable c (deployments c) t u n
    pub listed :
        Meets t u
          (λ items. (is_empty items ≡ false) × All (WorkloadSteady c (deployments c) t u n) items)
          (c.list_deployments n)

  get_deployment-Meets :
      (n : String)
      → Deployed n
      → Meets t u
          (λ items. (is_empty items ≡ false) × All (WorkloadSteady c (deployments c) t u n) items)
          (get_deployment c n)
  unfolding get_deployment
  get_deployment-Meets n d =
      Meets-handle t u (c.list_deployments n) (λ e. fail listing_deployment)
        (λ items. if is_empty items then fail no_deployment else ret items) d.listed
        λ items h. Meets-else t u (fail no_deployment) (ret items) h.0 (Meets-ret t u items h)

  turn-Meets :
      (found : Dict String (List Workload)) (n : String) (namespaces : List String)
      → Deployed n
      → ((items : List Workload)
          → All (WorkloadSteady c (deployments c) t u n) items
          → Meets t u
              (Filled t u (WorkloadSteady c (deployments c) t u) Deployed)
              (store_loop c (insert n items found) namespaces))
      → Meets t u
          (Filled t u (WorkloadSteady c (deployments c) t u) Deployed)
          (store_loop c found (n ∷ namespaces))
  turn-Meets found n namespaces d next =
      Meets-else t u (store_loop c found namespaces)
        (get_deployment c n >>= λ items. store_loop c (insert n items found) namespaces)
        d.readable.0
        (Meets-bind t u (get_deployment c n)
          (λ items. store_loop c (insert n items found) namespaces) (get_deployment-Meets n d)
          λ items i. next items i.1)

  pub check_deployments-Done :
      (i o : Duration)
      → Prompt c t i o
      → is_positive i ≡ true
      → is_positive o ≡ true
      → (namespaces : List String) → is_empty namespaces ≡ false
      → All Deployed namespaces
      → Done t u (check_deployments c i o namespaces)
  unfolding check_deployments store_deployments_by_namespace validate_deployments_by_namespace
  check_deployments-Done i o prompt pi po namespaces e ds =
      Meets-handle t u (store_deployments_by_namespace c namespaces)
        (λ e. if is_no_deployment e then ret tt else fail e)
        (λ found. validate_deployments_by_namespace c i o namespaces found)
        (store-Filled t u (WorkloadSteady c (deployments c) t u) Deployed (store_loop c)
          (λ found. refl) turn-Meets deployment_no_namespace no_deployment namespaces e ds)
        λ found h.
          validate_by_namespace-Done c (deployments c) t u i o prompt namespaces found pi po e
            (All-mono _ _ (λ n d. d.readable) namespaces ds) h
