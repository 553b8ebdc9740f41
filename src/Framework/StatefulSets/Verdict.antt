-- ===== src/Framework/StatefulSets/Verdict.antt =====
-- What is known when `CheckStatefulSets` returns no error.
use rhobs.Base.{◌≡◌, text_comparable, ◌⊎◌, inl, inr, String, List}
use rhobs.Base.Dict.{Dict}
use rhobs.Framework.{returned, failed, ret}
use rhobs.Framework.Errors.{no_stateful_set, is_no_stateful_set, is_no_stateful_set-only}
use rhobs.Framework.Kubernetes.{Cluster, Workload, Duration}
use rhobs.Framework.Kubernetes.Laws.{Time, Lawful}
use rhobs.Framework.Kubernetes.Returned.{excused-returned}
use rhobs.Framework.Workloads.Verdict.{AllHealthy, validate-healthy}
use rhobs.Framework.StatefulSets.{
  stateful_sets, validate_stateful_sets_by_namespace, store_stateful_sets_by_namespace,
  check_stateful_sets,
}

module _ {W : Type 0} {c : Cluster W} {t : Time W} (l : Lawful c t) (i o : Duration) where
  -- When CheckStatefulSets returns no error, either the listing of the stateful sets ended with
  -- ErrNoStatefulSet, or it gave a map, and every stateful set of the map in the given namespaces was
  -- seen at its wanted replicas, and its pods healthy, while the check ran. It rests on the client
  -- and the two waiting helpers behaving as documented.
  pub check_stateful_sets-healthy :
      (namespaces : List String) (u w : W)
      → check_stateful_sets c i o namespaces u ≡ (returned tt, w)
      → ((v : W) × (store_stateful_sets_by_namespace c namespaces u ≡ (failed no_stateful_set, v)))
        ⊎ ((found : Dict String (List Workload)) × (v : W) × (store_stateful_sets_by_namespace c
                namespaces u
              ≡ (returned found, v))
            × AllHealthy c (stateful_sets c) t namespaces found v w)
  unfolding check_stateful_sets validate_stateful_sets_by_namespace
  check_stateful_sets-healthy namespaces u w e =
      elim (excused-returned (store_stateful_sets_by_namespace c namespaces) is_no_stateful_set
        no_stateful_set (ret tt)
        (λ found. validate_stateful_sets_by_namespace c i o namespaces found)
        is_no_stateful_set-only e) [
          | inl (found, v, p, q) ↦ inr (
            found,
            v,
            p,
            validate-healthy (stateful_sets c) l l.get_stateful_set_forward i o namespaces found v w
                q,
          )
          | inr (v, p, q) ↦ inl (v, p)
        ]
