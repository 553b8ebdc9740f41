-- ===== src/Framework/Main/Steady.antt =====
-- cmd/rhobs-test/main.go on a cluster that stays healthy.
use rhobs.Base.{
  ◌≡◌, refl, ap, ◌∙◌, true, false, if◌then◌else◌, String, List, [], ◌++◌, All, All-mono,
}
use rhobs.Framework.{Action, returned, ret, errors_of, is_empty}
use rhobs.Framework.Errors.{Failure}
use rhobs.Framework.Kubernetes.{Cluster, Duration, is_positive}
use rhobs.Framework.Kubernetes.Laws.{Time}
use rhobs.Framework.Steady.{Prompt, Meets, Meets-ret, Meets-bind, Meets-errors_of}
use rhobs.Framework.Deployments.{check_deployments}
use rhobs.Framework.Deployments.Steady.{Deployed, check_deployments-Done}
use rhobs.Framework.StatefulSets.{check_stateful_sets}
use rhobs.Framework.StatefulSets.Steady.{HasSets, check_stateful_sets-Done}
use rhobs.Framework.Services.{check_services}
use rhobs.Framework.Services.Steady.{HasServices, check_services-Done}
use rhobs.Framework.Main.{Exit, success, fatal, collect, main}

module _ {W : Type 0} (c : Cluster W) (t : Time W) (u : W) where
  -- A namespace that stays healthy from `u` on.
  pub record IsSteady (n : String) : Type 0 where
    pub deployed : Deployed c t u n
    pub has_sets : HasSets c t u n
    pub has_services : HasServices c t u n

  module _ (i o : Duration) (prompt : Prompt c t i o) (pi : is_positive i ≡ true)
      (po : is_positive o ≡ true) (namespaces : List String) (ne : is_empty namespaces ≡ false)
      (steady : All IsSteady namespaces) where
    collect-Meets : Meets t u (λ es. es ≡ []) (collect c i o namespaces)
    unfolding collect
    collect-Meets =
        Meets-bind t u (errors_of (check_deployments c i o namespaces)) _
          (Meets-errors_of t u _ (
            check_deployments-Done c t u i o prompt pi po namespaces ne
              (All-mono _ _ (λ n s. s.deployed) namespaces steady)))
          λ ds p.
            Meets-bind t u (errors_of (check_stateful_sets c i o namespaces)) _
              (Meets-errors_of t u _ (
                check_stateful_sets-Done c t u i o prompt pi po namespaces ne
                  (All-mono _ _ (λ n s. s.has_sets) namespaces steady)))
              λ ss q.
                Meets-bind t u (errors_of (check_services c i o namespaces)) _
                  (Meets-errors_of t u _ (
                    check_services-Done c t u i o prompt pi po namespaces ne
                      (All-mono _ _ (λ n s. s.has_services) namespaces steady)))
                  λ vs r. Meets-ret t u (ds ++ (ss ++ vs)) (rw (p, q, r) refl)

-- The program ends with success, and does not end in a panic, on a cluster that stays healthy: the
-- list of namespaces is not empty, and from the start of the program on, in each of them, which has a
-- name, deployments, stateful sets and services are listed; every deployment and stateful set has
-- replicas and a selector, is available at its wanted replicas, and selects pods, all of which are
-- healthy; every service has a port with addresses; and logs can be read. The interval and the timeout
-- are positive; `RetryOnConflict` returns if what it retries does, and
-- `PollUntilContextTimeout` if its condition always holds.
pub main-succeeds :
    {W : Type 0} (c : Cluster W) (t : Time W) (u : W) (i o : Duration)
    → Prompt c t i o
    → is_positive i ≡ true
    → is_positive o ≡ true
    → (namespaces : List String) → is_empty namespaces ≡ false
    → All (IsSteady c t u) namespaces
    → (w : W) × (main c i o namespaces u ≡ (returned success, w))
unfolding main
main-succeeds c t u i o prompt pi po namespaces ne steady =
    let verdict : List Failure → Action _ Exit =
      λ errors. ret (if is_empty errors then success else fatal) in
    let (x, w, e, uw, s) =
      Meets-bind t u {Q = λ x. x ≡ success} (collect c i o namespaces) verdict
        (collect-Meets c t u i o prompt pi po namespaces ne steady)
        (λ errors h. Meets-ret t u (if is_empty errors then success else fatal) (rw h refl)) u
        (t.now u) in
    (w, e ∙ ap (λ y. (returned y, w)) s)
