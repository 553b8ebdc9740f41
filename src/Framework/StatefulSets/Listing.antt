-- ===== src/Framework/StatefulSets/Listing.antt =====
-- What `storeStatefulSetsByNamespace` puts into its map.
use rhobs.Base.{
  ◌≡◌, refl, ◌==◌, text_comparable, Bool-cases, inl, inr, String, List, [], ◌∷◌, All, arith,
}
use rhobs.Base.Dict.{Dict, insert}
use rhobs.Framework.{failed, returned}
use rhobs.Framework.Errors.{
  is_no_stateful_set, is_no_stateful_set-only, no_stateful_set, listing_stateful_set,
  stateful_set_no_namespace,
}
use rhobs.Framework.Kubernetes.{Cluster, Workload}
use rhobs.Framework.Kubernetes.Laws.{Time, Lawful}
use rhobs.Framework.Kubernetes.Returned.{excused-returned}
use rhobs.Framework.Workloads.Listed as Workloads
use rhobs.Framework.Workloads.Listed.Missed as Missed
use rhobs.Framework.Workloads.Listed.Missed.{list-NoneListed, NoneListed-widen}
use rhobs.Framework.Kubernetes.Failed.{get-failed}
use rhobs.Framework.Workloads.Listed.{Turn, get-Listed, store-listed}
use rhobs.Framework.StatefulSets.{get_stateful_set, store_loop, store_stateful_sets_by_namespace}

module _ {W : Type 0} {c : Cluster W} {t : Time W} (l : Lawful c t) where
  -- The stateful sets of a namespace, not none, were what the cluster listed between two moments.
  abbrev pub Listed : W → W → String → List Workload → Type 0
  Listed = Workloads.Listed t c.list_stateful_sets

  -- No stateful set was listed for a namespace at a moment between two moments.
  abbrev pub NoneListed : W → W → String → Type 0
  NoneListed = Missed.NoneListed t c.list_stateful_sets

  get-NoneListed :
      (n : String) {u v : W}
      → get_stateful_set c n u ≡ (failed no_stateful_set, v)
      → NoneListed u v n
  unfolding get_stateful_set
  get-NoneListed n e =
      list-NoneListed t c.list_stateful_sets n (l.list_stateful_sets_forward n)
        (get-failed (c.list_stateful_sets n) listing_stateful_set no_stateful_set (λ e. cc) e)

  -- A namespace is the empty name, or none were listed for it, or the map has those that were.
  abbrev pub Known : Dict String (List Workload) → W → W → String → Type 0
  Known = Workloads.Known t c.list_stateful_sets NoneListed

  turn :
      (found acc : Dict String (List Workload)) (m : String) (namespaces : List String) (u w : W)
      → store_loop c acc (m ∷ namespaces) u ≡ (returned found, w)
      → Turn t c.list_stateful_sets NoneListed (store_loop c) found acc m namespaces u w
  unfolding get_stateful_set
  turn found acc m namespaces u w e = elim (Bool-cases (m == "")) [
    | inl skip ↦ inl (ground (arith, text_comparable.equal_iff m ""), rw skip at e)
    | inr real ↦
        elim (excused-returned (get_stateful_set c m) is_no_stateful_set no_stateful_set
          (store_loop c acc namespaces) (λ items. store_loop c (insert m items acc) namespaces)
          is_no_stateful_set-only (rw real at e)) [
            | inl (items, v, p, e') ↦ inr (
                inr (
                  items,
                  v,
                  get-Listed t c.list_stateful_sets listing_stateful_set no_stateful_set m
                      (l.list_stateful_sets_forward m) p,
                  e',
                ))
            | inr (v, p, e') ↦ let n = get-NoneListed m p in inr (inl (v, t.later n.1 n.2, n, e'))
          ]
  ]

  pub loop-listed :
      (found : Dict String (List Workload)) (namespaces : List String) (u w : W)
      → store_loop c [] namespaces u ≡ (returned found, w)
      → All (Known found u w) namespaces
  loop-listed found namespaces u w e =
      Workloads.loop-listed t c.list_stateful_sets NoneListed (store_loop c)
        (NoneListed-widen t c.list_stateful_sets) (λ acc. refl) turn found [] namespaces u w e

  -- When the listing returns a map, each of the given namespaces is the empty name, or the cluster listed no
  -- stateful set for it while the call ran, or the map has for it those, not none, that the cluster
  -- listed then. It rests on the client behaving as documented.
  pub store_stateful_sets-listed :
      (namespaces : List String) (found : Dict String (List Workload)) (u w : W)
      → store_stateful_sets_by_namespace c namespaces u ≡ (returned found, w)
      → All (Known found u w) namespaces
  unfolding store_stateful_sets_by_namespace
  store_stateful_sets-listed namespaces found u w e =
      store-listed t c.list_stateful_sets NoneListed (store_loop c)
        (NoneListed-widen t c.list_stateful_sets) (λ acc. refl) turn stateful_set_no_namespace
        no_stateful_set namespaces found u w e
