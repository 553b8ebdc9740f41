-- ===== src/Framework/Deployments/Examined.antt =====
-- What is known of the namespaces when `CheckDeployments` returns no error.
use rhobs.Base.{◌≡◌, refl, ◌⊎◌, String, List, All}
use rhobs.Framework.{returned, failed}
use rhobs.Framework.Errors.{listing_deployment, no_deployment, deployment_no_namespace}
use rhobs.Framework.Kubernetes.{Cluster, Workload, Duration}
use rhobs.Framework.Kubernetes.Laws.{Time, Lawful, Forward, Between}
use rhobs.Framework.Kubernetes.Failed.{get-failed}
use rhobs.Framework.Workloads.Health.{WorkloadHealthy, SelectedHealthy}
use rhobs.Framework.Workloads.Examined.{Examined}
use rhobs.Framework.Workloads.Examined.Strict.{check-Examined}
use rhobs.Framework.Workloads.Listed.Missed.{Missed, NoneListed, list-NoneListed, get-Forward}
use rhobs.Framework.Workloads.Listed.Strict.{Never}
use rhobs.Framework.Deployments.{
  deployments, get_deployment, store_loop, store_deployments_by_namespace, check_deployments,
}
use rhobs.Framework.Deployments.Listing.{get_deployment-Listed}
use rhobs.Framework.Deployments.Verdict.{check_deployments-healthy}

module _ {W : Type 0} (c : Cluster W) (t : Time W) where
  -- A deployment was seen at its wanted replicas between two moments, and its pods healthy.
  abbrev pub DeploymentSeen : W → W → String → Workload → Type 0
  DeploymentSeen v w n d =
      Between t v w (WorkloadHealthy c (deployments c) n d)
      × Between t v w (SelectedHealthy c (deployments c) n d)

module _ {W : Type 0} {c : Cluster W} {t : Time W} (l : Lawful c t) where
  get_deployment-Forward : (n : String) → Forward t (get_deployment c n)
  unfolding get_deployment
  get_deployment-Forward n =
      get-Forward t c.list_deployments n listing_deployment no_deployment
        (l.list_deployments_forward n)

  get_deployment-NoneListed :
      (n : String) (u w : W)
      → get_deployment c n u ≡ (failed no_deployment, w)
      → NoneListed t c.list_deployments u w n
  unfolding get_deployment
  get_deployment-NoneListed n u w e =
      list-NoneListed t c.list_deployments n (l.list_deployments_forward n)
        (get-failed (c.list_deployments n) listing_deployment no_deployment (λ e. cc) e)

  pub check_deployments-Examined :
      (i o : Duration) (namespaces : List String) (u w : W)
      → check_deployments c i o namespaces u ≡ (returned tt, w)
      → (v : W) × (Missed t c.list_deployments u v namespaces
          ⊎ All (Examined t c.list_deployments Never (DeploymentSeen c t) u v w) namespaces)
  unfolding store_deployments_by_namespace
  check_deployments-Examined i o namespaces u w e =
      check-Examined t c.list_deployments (get_deployment c) no_deployment get_deployment-Forward
        (get_deployment-Listed l) (λ n u w h. get_deployment-NoneListed n u w) (store_loop c)
        (λ acc. refl) (λ acc m namespaces. refl) (DeploymentSeen c t) deployment_no_namespace
        (λ e. cc) namespaces u w (check_deployments-healthy l i o namespaces u w e)
