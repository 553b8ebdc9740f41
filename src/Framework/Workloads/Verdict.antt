-- ===== src/Framework/Workloads/Verdict.antt =====
-- What is known when the workloads of a map pass, and how often one is polled.
use rhobs.Base.{
  ℕ, suc, ◌≡◌, text_comparable, refl, Bool, true, false, ◌⊎◌, inl, inr, String, List, All, All-mono,
}
use rhobs.Base.Dict.{Dict, lookup}
use rhobs.Framework.{Action, Result, returned, failed, crashed, ret}
use rhobs.Framework.Errors.{external}
use rhobs.Framework.Kubernetes.{Cluster, Workload, Duration}
use rhobs.Framework.Kubernetes.Laws.{
  Time, Lawful, Forward, Between, Polled, deadline, holds, breaks, crashes, again,
}
use rhobs.Framework.Kubernetes.Returned.{bind-returned}
use rhobs.Framework.Workloads.Passed.{validate-Clean}
use rhobs.Framework.Workloads.Health.{WorkloadHealthy, SelectedHealthy, turn-healthy, turn-Forward}
use rhobs.Framework.Workloads.{
  Kind, items_of, check_status, condition, validate_workload, validate_by_namespace,
}

module _ {W : Type 0} (c : Cluster W) (k : Kind W) (t : Time W) where
  -- Every workload of the map in the namespaces was seen healthy, with healthy pods, between two
  -- moments.
  abbrev pub AllHealthy : List String → Dict String (List Workload) → W → W → Type 0
  AllHealthy namespaces found u w =
      All
        (λ n.
          All
            (λ d. Between t u w (WorkloadHealthy c k n d) × Between t u w (SelectedHealthy c k n d))
            (items_of (lookup n found)))
        namespaces

module _ {W : Type 0} {c : Cluster W} {t : Time W} (k : Kind W) (l : Lawful c t)
    (fg : (n x : String) → Forward t (k.get n x)) (i o : Duration) where
  pub validate-healthy :
      (namespaces : List String) (found : Dict String (List Workload)) (u w : W) {a : Unit}
      → validate_by_namespace c k i o namespaces found u ≡ (returned a, w)
      → AllHealthy c k t namespaces found u w
  unfolding validate_by_namespace
  validate-healthy namespaces found u w e =
      All-mono _ _
        (λ n. All-mono _ _ (λ d. turn-healthy c k n d l fg i o) (items_of (lookup n found)))
        namespaces
        (validate-Clean t (validate_workload c k i o) (λ n d. turn-Forward c k n d l fg i o)
          k.namespace_empty k.not_found k.invalid_interval k.validation_failed i o namespaces found
          u w e)

-- What a poll makes of the result of its condition, when that is not `false, nil`.
abbrev pub as_condition : Result Unit → Result Bool
as_condition (returned a) = returned true
as_condition (failed e) = failed e
as_condition crashed = crashed

-- How often a run of `PollUntilContextTimeout` evaluates its condition.
pub evaluations :
    {W : Type 0} {t : Time W} {f : Action W Bool} {u w : W} {r : Result Unit} → Polled t f u r w → ℕ
evaluations (deadline p) = 0
evaluations (holds p e) = 1
evaluations (breaks p e) = 1
evaluations (crashes p e) = 1
evaluations (again p e q) = suc (evaluations q)

module _ {W : Type 0} (c : Cluster W) (t : Time W) (k : Kind W) (n : String) (d : Workload) where
  never_false : (v w : W) → condition c k n d v ≡ (returned false, w) → false ≡ true
  unfolding condition
  never_false v w e =
      let (a, x, p, q) = bind-returned (check_status c k n d) (λ x. ret true) e in cc

  -- The context ended before the first evaluation, or the only evaluation gave the result.
  abbrev pub EndsAtOnce : (u w : W) (r : Result Unit) → Polled t (condition c k n d) u r w → Type 0
  EndsAtOnce u w r p =
      ((evaluations p ≡ 0) × (message : String) × (r ≡ failed (external message)))
      ⊎ ((evaluations p ≡ 1)
          × (v : W) × t.Reaches u v
          × (condition c k n d v ≡ (as_condition r, w)))

  pub run-EndsAtOnce :
      (u w : W) (r : Result Unit) (p : Polled t (condition c k n d) u r w) → EndsAtOnce u w r p
  unfolding evaluations
  run-EndsAtOnce u w r (deadline {message} p) = inl (refl, message, refl)
  run-EndsAtOnce u w r (holds {v} p e) = inr (refl, v, p, e)
  run-EndsAtOnce u w r (breaks {v} p e) = inr (refl, v, p, e)
  run-EndsAtOnce u w r (crashes {v} p e) = inr (refl, v, p, e)
  run-EndsAtOnce u w r (again {v} {x} p e q) = let no : false ≡ true = never_false v x e in cc
