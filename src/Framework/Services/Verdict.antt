-- ===== src/Framework/Services/Verdict.antt =====
-- What is known when `CheckServices` returns no error.
use rhobs.Base.{◌≡◌, text_comparable, ◌⊎◌, inl, inr, String, List, All, All-mono}
use rhobs.Base.Dict.{Dict, lookup}
use rhobs.Framework.{returned, failed, ret}
use rhobs.Framework.Errors.{
  no_service, service_namespace_empty, service_invalid_interval, service_failed, is_no_service,
  is_no_service-only,
}
use rhobs.Framework.Kubernetes.{Cluster, Service, Duration}
use rhobs.Framework.Kubernetes.Laws.{Time, Lawful}
use rhobs.Framework.Kubernetes.Returned.{excused-returned}
use rhobs.Framework.Workloads.{items_of}
use rhobs.Framework.Workloads.Passed.{validate-Clean}
use rhobs.Framework.Services.{
  validate_service, validate_services_by_namespace, store_services_by_namespace, check_services,
}
use rhobs.Framework.Services.Health.{ServiceHealthy, turn-Forward, turn-healthy}

module _ {W : Type 0} (c : Cluster W) (t : Time W) where
  -- Every service of the map in the namespaces was seen healthy between two moments.
  abbrev pub AllServed : List String → Dict String (List Service) → W → W → Type 0
  AllServed namespaces found u w =
      All (λ n. All (λ s. ServiceHealthy c t n s u w) (items_of (lookup n found))) namespaces

module _ {W : Type 0} {c : Cluster W} {t : Time W} (l : Lawful c t) (i o : Duration) where
  validate-healthy :
      (namespaces : List String) (found : Dict String (List Service)) (u w : W) {a : Unit}
      → validate_services_by_namespace c i o namespaces found u ≡ (returned a, w)
      → AllServed c t namespaces found u w
  unfolding validate_services_by_namespace
  validate-healthy namespaces found u w e =
      All-mono _ _ (λ n. All-mono _ _ (λ s. turn-healthy l n s i o u w) (items_of (lookup n found)))
        namespaces
        (validate-Clean t (validate_service c i o) (λ n s. turn-Forward l n s i o)
          service_namespace_empty no_service service_invalid_interval service_failed i o namespaces
          found u w e)

  -- When CheckServices returns no error, either the listing of the services ended with ErrNoService,
  -- or it gave a map, and for every service of the map in the given namespaces the cluster reported,
  -- while the check ran, the service and then endpoints with addresses for one of its ports, by name
  -- and number. It rests on the client and the two waiting helpers behaving as documented.
  pub check_services-served :
      (namespaces : List String) (u w : W)
      → check_services c i o namespaces u ≡ (returned tt, w)
      → ((v : W) × (store_services_by_namespace c namespaces u ≡ (failed no_service, v)))
        ⊎ ((found : Dict String (List Service)) × (v : W) × (store_services_by_namespace c
                namespaces u
              ≡ (returned found, v))
            × AllServed c t namespaces found v w)
  unfolding check_services
  check_services-served namespaces u w e =
      elim (excused-returned (store_services_by_namespace c namespaces) is_no_service no_service
        (ret tt) (λ found. validate_services_by_namespace c i o namespaces found) is_no_service-only
        e) [
          | inl (found, v, p, q) ↦ inr (found, v, p, validate-healthy namespaces found v w q)
          | inr (v, p, q) ↦ inl (v, p)
        ]
