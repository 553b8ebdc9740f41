-- ===== src/Framework/StatefulSets/Examined.antt =====
-- What is known of the namespaces when `CheckStatefulSets` returns no error.
use rhobs.Base.{◌≡◌, refl, ◌==◌, text_comparable, Bool-cases, inl, inr, String, List, [], ◌∷◌, All}
use rhobs.Base.Dict.{Dict, insert}
use rhobs.Framework.{returned, failed}
use rhobs.Framework.Errors.{no_stateful_set, stateful_set_no_namespace, is_no_stateful_set}
use rhobs.Framework.Kubernetes.{Cluster, Workload, Duration}
use rhobs.Framework.Kubernetes.Laws.{Time, Lawful, Between}
use rhobs.Framework.Kubernetes.Failed.{excused-failed, store-failed}
use rhobs.Framework.Workloads.Health.{WorkloadHealthy, SelectedHealthy}
use rhobs.Framework.Workloads.Examined.{Examined, Known-Examined, nil-Examined}
use rhobs.Framework.Workloads.Listed.Missed.{NoneListed}
use rhobs.Framework.StatefulSets.{
  stateful_sets, get_stateful_set, store_loop, store_stateful_sets_by_namespace,
  check_stateful_sets,
}
use rhobs.Framework.StatefulSets.Listing.{loop-listed, store_stateful_sets-listed}
use rhobs.Framework.StatefulSets.Verdict.{check_stateful_sets-healthy}

module _ {W : Type 0} (c : Cluster W) (t : Time W) where
  -- A stateful set was seen at its wanted replicas between two moments, and its pods healthy.
  abbrev pub SetSeen : W → W → String → Workload → Type 0
  SetSeen v w n d =
      Between t v w (WorkloadHealthy c (stateful_sets c) n d)
      × Between t v w (SelectedHealthy c (stateful_sets c) n d)

module _ {W : Type 0} (c : Cluster W) where
  -- The loop goes on where nothing was listed.
  store_loop-passes :
      (acc : Dict String (List Workload)) (namespaces : List String) (u w : W)
      → store_loop c acc namespaces u ≡ (failed no_stateful_set, w)
      → ⊥
  store_loop-passes acc [] u w e = cc
  store_loop-passes acc (m ∷ namespaces) u w e = elim (Bool-cases (m == "")) [
    | inl skip ↦ store_loop-passes acc namespaces u w (rw skip at e)
    | inr real ↦
        elim (excused-failed (get_stateful_set c m) is_no_stateful_set (store_loop c acc namespaces)
          (λ items. store_loop c (insert m items acc) namespaces) refl (rw real at e)) [
            | inl (v, q) ↦ store_loop-passes acc namespaces v w q
            | inr (items, v, p, q) ↦ store_loop-passes (insert m items acc) namespaces v w q
          ]
  ]

module _ {W : Type 0} {c : Cluster W} {t : Time W} (l : Lawful c t) where
  pub check_stateful_sets-Examined :
      (i o : Duration) (namespaces : List String) (u w : W)
      → check_stateful_sets c i o namespaces u ≡ (returned tt, w)
      → (v : W) × All
          (Examined t c.list_stateful_sets (NoneListed t c.list_stateful_sets) (SetSeen c t) u v w)
          namespaces
  unfolding store_stateful_sets_by_namespace
  check_stateful_sets-Examined i o namespaces u w e =
      let list = c.list_stateful_sets in
      elim (check_stateful_sets-healthy l i o namespaces u w e) [
        | inr (found, v, p, fine) ↦ (
          v,
          Known-Examined t list (NoneListed t list) (SetSeen c t) found namespaces u v w
              (store_stateful_sets-listed l namespaces found u v p) fine,
        )
        | inl (v, p) ↦ (
          v,
          elim (store-failed namespaces (store_loop c [] namespaces) stateful_set_no_namespace
              no_stateful_set (λ e. cc) p) [
                | inl e' ↦ absurd (store_loop-passes c [] namespaces u v e')
                | inr e' ↦
                    nil-Examined t list (NoneListed t list) (SetSeen c t) namespaces u v w
                      (loop-listed l [] namespaces u v e')
              ],
        )
      ]
