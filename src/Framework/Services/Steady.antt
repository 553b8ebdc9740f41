-- ===== src/Framework/Services/Steady.antt =====
-- The check of services that stay served returns.
use mathlib.Core.Path.{subst}
use rhobs.Base.{
  ◌≡◌, refl, sym, Bool, true, false, ◌==◌, text_comparable, Bool-cases, if◌then◌else◌, inl, inr,
  String, List, [], ◌∷◌, ◌++◌, All,
}
use rhobs.Base.Dict.{Dict, insert}
use rhobs.Framework.{Action, ret, fail, ◌>>=◌, handle, errors_of, is_empty}
use rhobs.Framework.Errors.{
  listing_service, no_service, service_no_namespace, service_not_healthy, service_namespace_empty,
  service_invalid_interval, service_failed, is_no_service,
}
use rhobs.Framework.Kubernetes.{Cluster, Service, Port, Duration, is_positive}
use rhobs.Framework.Kubernetes.Laws.{Time}
use rhobs.Framework.Steady.{
  Prompt, Done, Meets, Meets-ret, Meets-bind, Meets-handle, Meets-pass, Meets-else, Meets-errors_of,
}
use rhobs.Framework.Workloads.Stored.{Filled, store-Filled, validate-Done}
use rhobs.Framework.Services.{
  serves, ports_loop, get_service, store_loop, store_services_by_namespace, service_attempt,
  check_service_status, service_condition, validate_service, validate_services_by_namespace,
  check_services,
}

module _ {W : Type 0} (c : Cluster W) (t : Time W) (u : W) where
  -- From `u` on one of the ports has endpoints with addresses.
  abbrev pub HasEndpoint : (namespace name : String) → List Port → Type 0
  HasEndpoint namespace name ports =
      (before : List Port) × (p : Port) × (rest : List Port) × (ports ≡ before ++ p ∷ rest)
      × Meets t u (λ subsets. serves p subsets ≡ true) (c.get_endpoints namespace name)

  -- From `u` on the service is there, with such a port.
  abbrev pub ServiceSteady : (namespace : String) → Service → Type 0
  ServiceSteady namespace s =
      Meets t u (λ updated. HasEndpoint namespace s.name updated.ports)
        (c.get_service namespace s.name)

  -- From `u` on services are listed in the namespace, and they stay served.
  pub record HasServices (n : String) : Type 0 where
    pub named : (n == "") ≡ false
    pub listed :
        Meets t u
          (λ items. (is_empty items ≡ false) × All (ServiceSteady n) items)
          (c.list_services n)

  ports_loop-Meets :
      (namespace name : String) (before : List Port) (p : Port) (rest : List Port)
      → Meets t u (λ subsets. serves p subsets ≡ true) (c.get_endpoints namespace name)
      → Meets t u (λ b. b ≡ true) (ports_loop c namespace name (before ++ p ∷ rest))
  ports_loop-Meets namespace name [] p rest h =
      Meets-bind t u (c.get_endpoints namespace name)
        (λ subsets. if serves p subsets then ret true else ports_loop c namespace name rest) h
        λ subsets e.
          Meets-pass t u (ret true) (ports_loop c namespace name rest) e (Meets-ret t u true refl)
  ports_loop-Meets namespace name (x ∷ before) p rest h =
      Meets-bind t u (c.get_endpoints namespace name)
        (λ subsets.
          if serves x subsets then ret true else ports_loop c namespace name (before ++ p ∷ rest))
        h
        λ subsets e. elim (Bool-cases (serves x subsets)) [
          | inl f ↦
              Meets-pass t u (ret true) (ports_loop c namespace name (before ++ p ∷ rest)) f
                (Meets-ret t u true refl)
          | inr f ↦
              Meets-else t u (ret true) (ports_loop c namespace name (before ++ p ∷ rest)) f
                (ports_loop-Meets namespace name before p rest h)
        ]

  service_attempt-Done :
      (n : String) (s : Service) → ServiceSteady n s → Done t u (service_attempt c n s)
  unfolding service_attempt
  service_attempt-Done n s h =
      let decide : Bool → Action W Unit =
        λ served. if served then ret tt else fail service_not_healthy in
      Meets-bind t u (c.get_service n s.name)
        (λ updated. ports_loop c n s.name updated.ports >>= decide) h
        λ updated (before, p, rest, e, served).
          Meets-bind t u {P = λ b. b ≡ true} (ports_loop c n s.name updated.ports) decide
            (subst (λ ps. Meets t u (λ b. b ≡ true) (ports_loop c n s.name ps)) (sym e)
              (ports_loop-Meets n s.name before p rest served))
            λ b f. Meets-pass t u (ret tt) (fail service_not_healthy) f (Meets-ret t u tt tt)

  module _ (i o : Duration) (prompt : Prompt c t i o) where
    validate_service-Meets :
        (n : String) (s : Service)
        → ServiceSteady n s
        → Meets t u (λ es. es ≡ ([], [])) (validate_service c i o n s)
    unfolding validate_service service_condition check_service_status
    validate_service-Meets n s h =
        Meets-bind t u (errors_of (c.poll_until_context_timeout i o (service_condition c n s)))
          (λ errors. ret (errors, []))
          (Meets-errors_of t u _ (
            prompt.polls u (service_condition c n s) (
              Meets-handle t u (check_service_status c n s) (λ e. ret false) (λ x. ret true)
                (prompt.retries u (service_attempt c n s) (service_attempt-Done n s h))
                λ x d. Meets-ret t u true refl)))
          λ errors e. Meets-ret t u (errors, []) (cc)

  get_service-Meets :
      (n : String)
      → HasServices n
      → Meets t u
          (λ items. (is_empty items ≡ false) × All (ServiceSteady n) items)
          (get_service c n)
  unfolding get_service
  get_service-Meets n d =
      Meets-else t u (fail service_no_namespace)
        (handle (c.list_services n) (λ e. fail listing_service)
          (λ items. if is_empty items then fail no_service else ret items))
        d.named
        (Meets-handle t u (c.list_services n) (λ e. fail listing_service)
          (λ items. if is_empty items then fail no_service else ret items) d.listed
          λ items h. Meets-else t u (fail no_service) (ret items) h.0 (Meets-ret t u items h))

  turn-Meets :
      (found : Dict String (List Service)) (n : String) (namespaces : List String)
      → HasServices n
      → ((items : List Service)
          → All (ServiceSteady n) items
          → Meets t u
              (Filled t u ServiceSteady HasServices)
              (store_loop c (insert n items found) namespaces))
      → Meets t u (Filled t u ServiceSteady HasServices) (store_loop c found (n ∷ namespaces))
  turn-Meets found n namespaces d next =
      Meets-else t u (store_loop c found namespaces)
        (get_service c n >>= λ items. store_loop c (insert n items found) namespaces) d.named
        (Meets-bind t u (get_service c n) (λ items. store_loop c (insert n items found) namespaces)
          (get_service-Meets n d) λ items i. next items i.1)

  pub check_services-Done :
      (i o : Duration)
      → Prompt c t i o
      → is_positive i ≡ true
      → is_positive o ≡ true
      → (namespaces : List String) → is_empty namespaces ≡ false
      → All HasServices namespaces
      → Done t u (check_services c i o namespaces)
  unfolding check_services store_services_by_namespace validate_services_by_namespace
  check_services-Done i o prompt pi po namespaces e ds =
      Meets-handle t u (store_services_by_namespace c namespaces)
        (λ e. if is_no_service e then ret tt else fail e)
        (λ found. validate_services_by_namespace c i o namespaces found)
        (store-Filled t u ServiceSteady HasServices (store_loop c) (λ found. refl) turn-Meets
          service_no_namespace no_service namespaces e ds)
        λ found h.
          validate-Done t u ServiceSteady HasServices (validate_service c i o)
            (λ n s d p. validate_service-Meets i o prompt n s p) service_namespace_empty no_service
            service_invalid_interval service_failed i o namespaces found pi po e ds h
