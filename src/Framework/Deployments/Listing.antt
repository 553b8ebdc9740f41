-- ===== src/Framework/Deployments/Listing.antt =====
-- What `storeDeploymentsByNamespace` puts into its map, and what it skips.
use rhobs.Base.{
  ◌≡◌, refl, false, ◌==◌, text_comparable, ◌⊎◌, inl, inr, String, some, List, [], ◌∷◌, ◌++◌, All,
  All-mono,
}
use rhobs.Base.Dict.{Dict, lookup, insert}
use rhobs.Framework.{returned, failed, is_empty}
use rhobs.Framework.Errors.{no_deployment, listing_deployment, deployment_no_namespace}
use rhobs.Framework.Kubernetes.{Cluster, Workload, Duration}
use rhobs.Framework.Kubernetes.Laws.{Time, Lawful}
use rhobs.Framework.Workloads.Listed as Workloads
use rhobs.Framework.Workloads.Listed.Strict.{Never, turn-Strict}
use rhobs.Framework.Workloads.Listed.{get-Listed, store-listed}
use rhobs.Framework.Deployments.{
  get_deployment, store_loop, store_deployments_by_namespace, check_deployments,
}

module _ {W : Type 0} (c : Cluster W) where
  -- The namespaces are listed one after the other, and each has deployments.
  pub data Lists : W → List String → W → Type 0 where
    none_left : {u : W} → Lists u [] u
    next :
        {u v w : W} {n : String} {items : List Workload} {namespaces : List String}
        → (n == "") ≡ false
        → c.list_deployments n u ≡ (returned items, v)
        → is_empty items ≡ false
        → Lists v namespaces w
        → Lists u (n ∷ namespaces) w

  get-found :
      (n : String) {u v : W} {items : List Workload}
      → c.list_deployments n u ≡ (returned items, v)
      → is_empty items ≡ false
      → get_deployment c n u ≡ (returned items, v)
  unfolding get_deployment
  get-found n p q = rw p (rw q refl)

  get-none :
      (n : String) {u v : W}
      → c.list_deployments n u ≡ (returned [], v)
      → get_deployment c n u ≡ (failed no_deployment, v)
  unfolding get_deployment
  get-none n p = rw p refl

  loop-skips :
      (found : Dict String (List Workload)) (before rest : List String) (n : String) {u v w : W}
      → Lists u before v
      → (n == "") ≡ false
      → c.list_deployments n v ≡ (returned [], w)
      → store_loop c found (before ++ n ∷ rest) u ≡ (failed no_deployment, w)
  loop-skips found [] rest n none_left p q = rw p (rw (get-none n q) refl)
  loop-skips found (m ∷ before) rest n (next {items} h k l ls) p q =
      rw h (rw (get-found m k l) (loop-skips (insert m items found) before rest n ls p q))

  -- If each of the namespaces before it has deployments, a namespace that has a name and no
  -- deployments makes CheckDeployments return no error, in the world that the listing of this
  -- namespace left: no deployment is looked at, neither of the namespaces before it nor of those
  -- after it.
  pub check_deployments-skips :
      (i o : Duration) (before rest : List String) (n : String) (u v w : W)
      → Lists u before v
      → (n == "") ≡ false
      → c.list_deployments n v ≡ (returned [], w)
      → check_deployments c i o (before ++ n ∷ rest) u ≡ (returned tt, w)
  unfolding check_deployments
  check_deployments-skips i o [] rest n u v w ls p q = rw (loop-skips [] [] rest n ls p q) refl
  check_deployments-skips i o (m ∷ before) rest n u v w ls p q =
      rw (loop-skips [] (m ∷ before) rest n ls p q) refl

module _ {W : Type 0} {c : Cluster W} {t : Time W} (l : Lawful c t) where
  -- The deployments of a namespace, not none, were what the cluster listed between two moments.
  abbrev pub Listed : W → W → String → List Workload → Type 0
  Listed = Workloads.Listed t c.list_deployments

  -- A namespace is the empty name, or the map has the deployments that were listed for it.
  abbrev pub Known : Dict String (List Workload) → W → W → String → Type 0
  Known found u w n =
      (n ≡ "") ⊎ ((items : List Workload) × (lookup n found ≡ some items) × Listed u w n items)

  not_passed :
      (found : Dict String (List Workload)) (u w : W) (n : String)
      → Workloads.Known t c.list_deployments Never found u w n
      → Known found u w n
  not_passed found u w n (inl e) = inl e
  not_passed found u w n (inr (inl impossible)) = absurd impossible
  not_passed found u w n (inr (inr h)) = inr h

  pub get_deployment-Listed :
      (n : String) (u v : W) (items : List Workload)
      → get_deployment c n u ≡ (returned items, v)
      → Listed u v n items
  unfolding get_deployment
  get_deployment-Listed n u v items e =
      get-Listed t c.list_deployments listing_deployment no_deployment n
        (l.list_deployments_forward n) e

  -- The shared lemmas have one case more, a namespace that is passed over, which is impossible here.
  pub store_deployments-Known :
      (namespaces : List String) (found : Dict String (List Workload)) (u w : W)
      → store_deployments_by_namespace c namespaces u ≡ (returned found, w)
      → All (Workloads.Known t c.list_deployments Never found u w) namespaces
  unfolding store_deployments_by_namespace
  store_deployments-Known namespaces found u w e =
      store-listed t c.list_deployments Never (store_loop c) (λ r u v w n p q a. a) (λ acc. refl)
        (turn-Strict t c.list_deployments (get_deployment c) get_deployment-Listed (store_loop c))
        deployment_no_namespace no_deployment namespaces found u w e

  -- When the listing returns a map, each of the given namespaces is the empty name, or the map has for it the
  -- deployments, not none, that the cluster listed for it while the call ran. It rests on the client
  -- behaving as documented.
  pub store_deployments-listed :
      (namespaces : List String) (found : Dict String (List Workload)) (u w : W)
      → store_deployments_by_namespace c namespaces u ≡ (returned found, w)
      → All (Known found u w) namespaces
  store_deployments-listed namespaces found u w e =
      All-mono _ _ (not_passed found u w) namespaces
        (store_deployments-Known namespaces found u w e)
