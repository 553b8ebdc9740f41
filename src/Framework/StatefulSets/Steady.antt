-- ===== src/Framework/StatefulSets/Steady.antt =====
-- The check of stateful_sets that stay healthy returns.
use rhobs.Base.{
  ◌≡◌, refl, true, false, text_comparable, if◌then◌else◌, String, List, ◌∷◌, All, All-mono,
}
use rhobs.Base.Dict.{Dict, insert}
use rhobs.Framework.{ret, fail, handle, is_empty}
use rhobs.Framework.Errors.{
  listing_stateful_set, no_stateful_set, stateful_set_no_namespace, is_no_stateful_set,
}
use rhobs.Framework.Kubernetes.{Cluster, Workload, Duration, is_positive}
use rhobs.Framework.Kubernetes.Laws.{Time}
use rhobs.Framework.Steady.{Prompt, Done, Meets, Meets-ret, Meets-handle, Meets-else}
use rhobs.Framework.Workloads.Stored.{Filled, store-Filled}
use rhobs.Framework.Workloads.Steady.{WorkloadSteady, Readable, validate_by_namespace-Done}
use rhobs.Framework.StatefulSets.{
  stateful_sets, get_stateful_set, store_loop, store_stateful_sets_by_namespace,
  validate_stateful_sets_by_namespace, check_stateful_sets,
}

module _ {W : Type 0} (c : Cluster W) (t : Time W) (u : W) where
  -- From `u` on stateful sets are listed in the namespace, they stay healthy, and logs can be read.
  pub record HasSets (n : String) : Type 0 where
    pub readable : Readable c (stateful_sets c) t u n
    pub listed :
        Meets t u
          (λ items. (is_empty items ≡ false) × All (WorkloadSteady c (stateful_sets c) t u n) items)
          (c.list_stateful_sets n)

  get_stateful_set-Meets :
      (n : String)
      → HasSets n
      → Meets t u
          (λ items. (is_empty items ≡ false) × All (WorkloadSteady c (stateful_sets c) t u n) items)
          (get_stateful_set c n)
  unfolding get_stateful_set
  get_stateful_set-Meets n d =
      Meets-handle t u (c.list_stateful_sets n) (λ e. fail listing_stateful_set)
        (λ items. if is_empty items then fail no_stateful_set else ret items) d.listed
        λ items h. Meets-else t u (fail no_stateful_set) (ret items) h.0 (Meets-ret t u items h)

  turn-Meets :
      (found : Dict String (List Workload)) (n : String) (namespaces : List String)
      → HasSets n
      → ((items : List Workload)
          → All (WorkloadSteady c (stateful_sets c) t u n) items
          → Meets t u
              (Filled t u (WorkloadSteady c (stateful_sets c) t u) HasSets)
              (store_loop c (insert n items found) namespaces))
      → Meets t u
          (Filled t u (WorkloadSteady c (stateful_sets c) t u) HasSets)
          (store_loop c found (n ∷ namespaces))
  turn-Meets found n namespaces d next =
      Meets-else t u (store_loop c found namespaces)
        (handle (get_stateful_set c n)
          (λ e. if is_no_stateful_set e then store_loop c found namespaces else fail e)
          (λ items. store_loop c (insert n items found) namespaces))
        d.readable.0
        (Meets-handle t u (get_stateful_set c n)
          (λ e. if is_no_stateful_set e then store_loop c found namespaces else fail e)
          (λ items. store_loop c (insert n items found) namespaces) (get_stateful_set-Meets n d)
          λ items i. next items i.1)

  pub check_stateful_sets-Done :
      (i o : Duration)
      → Prompt c t i o
      → is_positive i ≡ true
      → is_positive o ≡ true
      → (namespaces : List String) → is_empty namespaces ≡ false
      → All HasSets namespaces
      → Done t u (check_stateful_sets c i o namespaces)
  unfolding check_stateful_sets store_stateful_sets_by_namespace validate_stateful_sets_by_namespace
  check_stateful_sets-Done i o prompt pi po namespaces e ds =
      Meets-handle t u (store_stateful_sets_by_namespace c namespaces)
        (λ e. if is_no_stateful_set e then ret tt else fail e)
        (λ found. validate_stateful_sets_by_namespace c i o namespaces found)
        (store-Filled t u (WorkloadSteady c (stateful_sets c) t u) HasSets (store_loop c)
          (λ found. refl) turn-Meets stateful_set_no_namespace no_stateful_set namespaces e ds)
        λ found h.
          validate_by_namespace-Done c (stateful_sets c) t u i o prompt namespaces found pi po e
            (All-mono _ _ (λ n d. d.readable) namespaces ds) h
