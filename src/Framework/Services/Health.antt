-- ===== src/Framework/Services/Health.antt =====
-- What a turn of the check of the services guarantees when it adds no error.
use mathlib.Core.Path.{subst}
use rhobs.Base.{
  ◌≡◌, text_comparable, refl, ap, ◌∙◌, Bool, true, false, if◌then◌else◌, inl, inr, Bool-cases,
  String, List, [], ◌∷◌, ◌++◌,
}
use rhobs.Framework.{Action, ErrorLists, returned, ret, fail, ◌>>=◌, errors_of}
use rhobs.Framework.Errors.{Failure, service_not_healthy}
use rhobs.Framework.Kubernetes.{Cluster, Service, Port, Subset, Duration}
use rhobs.Framework.Kubernetes.Laws.{
  Time, Lawful, Forward, Between, bind-Forward, handle-Forward, choice-Forward, Retried-Forward,
}
use rhobs.Framework.Kubernetes.Returned.{
  bind-returned, handle-returned, errors_of-returned, pass-returned,
}
use rhobs.Framework.Kubernetes.Waiting.{
  Clean, forward_at, retry-returned, poll-returned, poll-Forward,
}
use rhobs.Framework.Services.{
  serves, ports_loop, service_attempt, check_service_status, service_condition, validate_service,
}

abbrev only : List Failure → ErrorLists
only errors = (errors, [])

only_none :
    {W : Type 0} {errors : List Failure} {v w : W}
    → ret (only errors) v ≡ (returned (only []), w)
    → (errors ≡ []) × (v ≡ w)
only_none e = (cc, cc)

module _ {W : Type 0} (c : Cluster W) (t : Time W) (namespace : String) where
  -- Between two moments the cluster reported endpoints with addresses for one of the ports.
  abbrev pub Served : String → List Port → W → W → Type 0
  Served name ports u w =
      (before : List Port) × (p : Port) × (rest : List Port) × (ports ≡ before ++ p ∷ rest)
      × Between t u w (λ v.
        (subsets : List Subset) × (x : W) × (c.get_endpoints namespace name v
          ≡ (returned subsets, x))
        × (serves p subsets ≡ true))

  -- Between two moments the cluster reported the service, and then endpoints for one of its ports.
  abbrev pub ServiceHealthy : Service → W → W → Type 0
  ServiceHealthy s u w =
      (updated : Service) × (v : W) × (x : W) × t.Reaches u v
      × (c.get_service namespace s.name v ≡ (returned updated, x))
      × Served s.name updated.ports x w

module _ {W : Type 0} {c : Cluster W} {t : Time W} (l : Lawful c t) (namespace : String) where
  ports-Forward :
      (name : String) (ports : List Port) → Forward t (ports_loop c namespace name ports)
  ports-Forward name [] w = t.now w
  ports-Forward name (p ∷ ports) w =
      bind-Forward t (c.get_endpoints namespace name)
        (λ subsets. if serves p subsets then ret true else ports_loop c namespace name ports)
        (l.get_endpoints_forward namespace name)
        (λ subsets.
          choice-Forward t (serves p subsets) (ret true) (ports_loop c namespace name ports)
            (λ w. t.now w) (λ w. ports-Forward name ports w))
        w

  ports-Served :
      (name : String) (ports : List Port) (u w : W)
      → ports_loop c namespace name ports u ≡ (returned true, w)
      → Served c t namespace name ports u w
  ports-Served name [] u w e = cc
  ports-Served name (p ∷ ports) u w e =
      let (subsets, x, q, e1) =
        bind-returned (c.get_endpoints namespace name)
          (λ subsets. if serves p subsets then ret true else ports_loop c namespace name ports) e in
      let ux =
        forward_at t (c.get_endpoints namespace name) (l.get_endpoints_forward namespace name) q in
      elim (Bool-cases (serves p subsets)) [
        | inl h ↦
            let at_end : ret true x ≡ (returned true, w) = rw h at e1 in
            let xw : x ≡ w = cc in
            ([], p, ports, refl, (u, t.now u, subst (t.Reaches u) xw ux, (subsets, x, q, h)))
        | inr h ↦
            let (before, p', rest, g, (v, xv, vw, seen)) =
              ports-Served name ports x w (rw h at e1) in
            (p ∷ before, p', rest, ap (λ ps. p ∷ ps) g, (v, t.later ux xv, vw, seen))
      ]

  module _ (s : Service) where
    attempt-Forward : Forward t (service_attempt c namespace s)
    unfolding service_attempt
    attempt-Forward =
        bind-Forward t (c.get_service namespace s.name) _ (l.get_service_forward namespace s.name)
          λ updated.
            bind-Forward t (ports_loop c namespace s.name updated.ports) _
              (ports-Forward s.name updated.ports)
              λ served.
                choice-Forward t served (ret tt) (fail service_not_healthy) (λ w. t.now w)
                  (λ w. t.now w)

    status-Forward : Forward t (check_service_status c namespace s)
    unfolding check_service_status
    status-Forward w =
        Retried-Forward t (service_attempt c namespace s) attempt-Forward w _ _
          (l.retried (service_attempt c namespace s) w)

    condition-Forward : Forward t (service_condition c namespace s)
    unfolding service_condition
    condition-Forward =
        handle-Forward t (check_service_status c namespace s) (λ e. ret false) (λ u. ret true)
          status-Forward (λ e w. t.now w) (λ u w. t.now w)

    pub turn-Forward : (i o : Duration) → Forward t (validate_service c i o namespace s)
    unfolding validate_service
    turn-Forward i o =
        bind-Forward t
          (errors_of (c.poll_until_context_timeout i o (service_condition c namespace s))) _
          (poll-Forward l i o (service_condition c namespace s) condition-Forward)
          λ errors w. t.now w

    attempt-healthy :
        (u w : W) {a : Unit}
        → service_attempt c namespace s u ≡ (returned a, w)
        → ServiceHealthy c t namespace s u w
    unfolding service_attempt
    attempt-healthy u w {a} e =
        let decide : Bool → Action W Unit =
          λ served. if served then ret tt else fail service_not_healthy in
        let (updated, x, p, e1) =
          bind-returned (c.get_service namespace s.name)
            (λ updated. ports_loop c namespace s.name updated.ports >>= decide) e in
        let (served, y, q, e2) =
          bind-returned (ports_loop c namespace s.name updated.ports) decide e1 in
        let (h, e3) = pass-returned served (ret tt) service_not_healthy e2 in
        let yw : y ≡ w = cc in
        let all_in : ports_loop c namespace s.name updated.ports x ≡ (returned true, w) =
          q ∙ ap (λ b. (returned b, y)) h ∙ ap (λ z. (returned true, z)) yw in
        (updated, u, x, t.now u, p, ports-Served s.name updated.ports x w all_in)

    ServiceHealthy-later :
        {u v w x : W}
        → t.Reaches u v
        → t.Reaches w x
        → ServiceHealthy c t namespace s v w
        → ServiceHealthy c t namespace s u x
    ServiceHealthy-later uv wx (updated, y, z, vy, p, (before, port, rest, g, (a, za, aw, seen))) =
        (updated, y, z, t.later uv vy, p, (before, port, rest, g, (a, za, t.later aw wx, seen)))

    condition-healthy :
        (u w : W)
        → service_condition c namespace s u ≡ (returned true, w)
        → ServiceHealthy c t namespace s u w
    unfolding service_condition check_service_status
    condition-healthy u w e =
        elim (handle-returned (check_service_status c namespace s) (λ e. ret false) (λ u. ret true)
          e) [
            | inl (a, v, p, q) ↦
                let vw : v ≡ w = cc in
                let (x, ux, g) =
                  retry-returned l (service_attempt c namespace s) attempt-Forward
                    (p ∙ ap (λ z. (returned a, z)) vw) in
                ServiceHealthy-later ux (t.now w) (attempt-healthy x w g)
            | inr (k, v, p, q) ↦ cc
          ]

    pub turn-healthy :
        (i o : Duration) (u w : W)
        → Clean t (validate_service c i o namespace s) u w
        → ServiceHealthy c t namespace s u w
    unfolding validate_service
    turn-healthy i o u w (v, x, uv, xw, e) =
        let poll = errors_of (c.poll_until_context_timeout i o (service_condition c namespace s)) in
        let (errors, y, p, q) = bind-returned poll (λ errors. ret (only errors)) e in
        let (none, yx) = only_none q in
        let (a, g) =
          errors_of-returned (c.poll_until_context_timeout i o (service_condition c namespace s))
            (p ∙ ap (λ z. (returned z, y)) none ∙ ap (λ z. (returned [], z)) yx) in
        let (b, vb, h) =
          poll-returned l i o (service_condition c namespace s) condition-Forward g in
        ServiceHealthy-later (t.later uv vb) xw (condition-healthy b x h)
