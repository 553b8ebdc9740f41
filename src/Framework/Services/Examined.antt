-- ===== src/Framework/Services/Examined.antt =====
-- What is known of the namespaces when `CheckServices` returns no error.
use rhobs.Base.{◌≡◌, refl, false, ◌==◌, text_comparable, if◌then◌else◌, ◌⊎◌, String, List, All}
use rhobs.Framework.{returned, failed, ret, fail, handle, is_empty}
use rhobs.Framework.Errors.{listing_service, no_service, service_no_namespace}
use rhobs.Framework.Kubernetes.{Cluster, Service, Duration}
use rhobs.Framework.Kubernetes.Laws.{Time, Lawful, Forward, choice-Forward}
use rhobs.Framework.Kubernetes.Failed.{get-failed}
use rhobs.Framework.Workloads.Examined.{Examined}
use rhobs.Framework.Workloads.Examined.Strict.{check-Examined}
use rhobs.Framework.Workloads.Listed.Missed.{Missed, NoneListed, list-NoneListed, get-Forward}
use rhobs.Framework.Workloads.Listed.Strict.{Never}
use rhobs.Framework.Services.{get_service, store_loop, store_services_by_namespace, check_services}
use rhobs.Framework.Services.Health.{ServiceHealthy}
use rhobs.Framework.Services.Listing.{get_service-Listed}
use rhobs.Framework.Services.Verdict.{check_services-served}

module _ {W : Type 0} (c : Cluster W) (t : Time W) where
  -- A service was seen healthy between two moments.
  abbrev pub ServiceSeen : W → W → String → Service → Type 0
  ServiceSeen v w n s = ServiceHealthy c t n s v w

module _ {W : Type 0} {c : Cluster W} {t : Time W} (l : Lawful c t) where
  get_service-Forward : (n : String) → Forward t (get_service c n)
  unfolding get_service
  get_service-Forward n =
      choice-Forward t (n == "") (fail service_no_namespace)
        (handle (c.list_services n) (λ e. fail listing_service)
          (λ items. if is_empty items then fail no_service else ret items))
        (λ w. t.now w)
        (get-Forward t c.list_services n listing_service no_service (l.list_services_forward n))

  get_service-NoneListed :
      (n : String) (u w : W)
      → (n == "") ≡ false
      → get_service c n u ≡ (failed no_service, w)
      → NoneListed t c.list_services u w n
  unfolding get_service
  get_service-NoneListed n u w h e =
      list-NoneListed t c.list_services n (l.list_services_forward n)
        (get-failed (c.list_services n) listing_service no_service (λ e. cc) (rw h at e))

  pub check_services-Examined :
      (i o : Duration) (namespaces : List String) (u w : W)
      → check_services c i o namespaces u ≡ (returned tt, w)
      → (v : W) × (Missed t c.list_services u v namespaces
          ⊎ All (Examined t c.list_services Never (ServiceSeen c t) u v w) namespaces)
  unfolding store_services_by_namespace
  check_services-Examined i o namespaces u w e =
      check-Examined t c.list_services (get_service c) no_service get_service-Forward
        (get_service-Listed l) get_service-NoneListed (store_loop c) (λ acc. refl)
        (λ acc m namespaces. refl) (ServiceSeen c t) service_no_namespace (λ e. cc) namespaces u w
        (check_services-served l i o namespaces u w e)
