-- ===== src/Framework/Services/Listing.antt =====
-- What `storeServicesByNamespace` puts into its map.
use rhobs.Base.{◌≡◌, refl, ◌==◌, text_comparable, if◌then◌else◌, String, List, All}
use rhobs.Base.Dict.{Dict}
use rhobs.Framework.{returned, fail, handle, ret, is_empty}
use rhobs.Framework.Errors.{listing_service, no_service, service_no_namespace}
use rhobs.Framework.Kubernetes.{Cluster, Service}
use rhobs.Framework.Kubernetes.Laws.{Time, Lawful}
use rhobs.Framework.Kubernetes.Returned.{guard-returned}
use rhobs.Framework.Workloads.Listed.{Listed, Known, get-Listed, store-listed}
use rhobs.Framework.Workloads.Listed.Strict.{Never, turn-Strict}
use rhobs.Framework.Services.{get_service, store_loop, store_services_by_namespace}

module _ {W : Type 0} {c : Cluster W} {t : Time W} (l : Lawful c t) where
  pub get_service-Listed :
      (n : String) (u v : W) (items : List Service)
      → get_service c n u ≡ (returned items, v)
      → Listed t c.list_services u v n items
  unfolding get_service
  get_service-Listed n u v items e =
      let (h, e') =
        guard-returned (n == "") service_no_namespace
          (handle (c.list_services n) (λ e. fail listing_service)
            (λ items. if is_empty items then fail no_service else ret items))
          e in
      get-Listed t c.list_services listing_service no_service n (l.list_services_forward n) e'

  -- Of every namespace, either the name is empty or the map has its services.
  pub store_services-listed :
      (namespaces : List String) (found : Dict String (List Service)) (u w : W)
      → store_services_by_namespace c namespaces u ≡ (returned found, w)
      → All (Known t c.list_services Never found u w) namespaces
  unfolding store_services_by_namespace
  store_services-listed namespaces found u w e =
      store-listed t c.list_services Never (store_loop c) (λ r u v w n p q a. a) (λ acc. refl)
        (turn-Strict t c.list_services (get_service c) get_service-Listed (store_loop c))
        service_no_namespace no_service namespaces found u w e
