-- ===== src/Mage/Cache/Labels.antt =====
-- The labels of the memcached's objects.
use mathlib.Core.Path.{subst}
use rhobs.Base.{
  ℕ, ◌<◌, ◌≡◌, refl, ap, sym, ◌∙◌, ◌==◌, ◌<>◌, nat_comparable, text_comparable, if◌then◌else◌,
  String, some, [], ◌∷◌, arith,
}
use rhobs.Base.Dict.{lookup, lookup-insert}
use rhobs.Base.Outcome.{Outcome, ok, ◌>>=◌}
use rhobs.Mage.Value.{Object}
use rhobs.Mage.Params.{TemplateMaps}
use rhobs.Mage.Heap.{
  Ref, Heap, read, make_map, assign, deep_copy_map, copy_loop, lookup-copy_loop, read-make_map,
  read-made, assign-returned,
}
use rhobs.Mage.OperatorCr.{template, generator}
use rhobs.Mage.Cache.{
  MemcachedConfig, cache_name, gateway_cache_labels, gateway_cache, memcached_stateful_set,
  create_service_account, create_cache_headless_service, service_monitor,
  create_cache_service_monitor, cache_files, cache,
}

-- For a configuration whose labels are a map that is there: the service monitor is built without
-- a panic, it has the labels of the configuration and the one that says who scrapes it, and every
-- map that was there is left as it was, that of the configuration included.
pub create_cache_service_monitor-labels :
    (config : MemcachedConfig) (a : ℕ) (h : Heap)
    → config.labels ≡ some a
    → a < h.fresh
    → (monitor : Heap → Object) × (g : Heap) × (create_cache_service_monitor config h
        ≡ ok (monitor, g))
      × ((b : ℕ) → b < h.fresh → read (some b) g ≡ read (some b) h)
      × ((k : String)
          → lookup k (monitor g).labels
            ≡ (if "prometheus" == k then some "app-sre" else lookup k (read config.labels h)))
unfolding create_cache_service_monitor
create_cache_service_monitor-labels config a h e below =
    let copy = copy_loop (read (some a) h) in
    let made = (make_map copy h).1 in
    let monitor : Heap → Object = service_monitor config (some h.fresh) in
    let monitor_of : Ref → Heap → Outcome ((Heap → Object) × Heap) =
      λ labels g. ok (service_monitor config labels, g) in
    let (g, done, here, there) = assign-returned "prometheus" "app-sre" h.fresh made in
    (
      monitor,
      g,
      subst
          (λ r.
            (assign (deep_copy_map r h).0 "prometheus" "app-sre" (deep_copy_map r h).1
              >>= monitor_of (deep_copy_map r h).0)
            ≡ ok (monitor, g))
          (sym e) (ap (λ x. x >>= monitor_of (some h.fresh)) done),
      λ b old.
          there b (ground (arith, old, nat_comparable.equal_iff h.fresh b))
          ∙ read-make_map (some b) copy h old,
      λ k.
          ap (lookup k) here
          ∙ lookup-insert k "prometheus" "app-sre" (read (some h.fresh) made)
          ∙ ap (λ d. if "prometheus" == k then some "app-sre" else lookup k d) (read-made copy h)
          ∙ ap (λ o. if "prometheus" == k then some "app-sre" else o)
              (lookup-copy_loop k (read (some a) h) ∙ ap (λ r. lookup k (read r h)) (sym e)),
    )

-- Stage.Cache does not panic: it writes the stateful set, the service account and the service to one
-- file, each with exactly the labels of the gateway's memcached, and the service monitor to another
-- one, with these labels and the one that says who scrapes it.
pub cache-labels :
    (m : TemplateMaps) (h : Heap)
    → (stateful_set : Object) × (account : Object) × (service : Object) × (monitor : Object)
      × (cache m h
          ≡ ok (
              record {
                dir = generator "staging" cache_name;
                name = "memcached-template.yaml";
                contents = template cache_name (stateful_set ∷ account ∷ service ∷ []) [];
              }
              ∷ record {
                dir = generator "staging" cache_name;
                name = "service-monitor-memcached-template.yaml";
                contents = template (cache_name <> "-service-monitor") (monitor ∷ []) [];
              }
              ∷ []))
      × (stateful_set.labels ≡ gateway_cache_labels m)
      × (account.labels ≡ gateway_cache_labels m)
      × (service.labels ≡ gateway_cache_labels m)
      × ((k : String)
          → lookup k monitor.labels
            ≡ (if "prometheus" == k then some "app-sre" else lookup k (gateway_cache_labels m)))
unfolding cache
cache-labels m h =
    let config = (gateway_cache m h).0 in
    let made = (gateway_cache m h).1 in
    let (monitor, g, done, kept, added) =
      create_cache_service_monitor-labels config h.fresh made refl (omega arith) in
    let same : read (some h.fresh) g ≡ gateway_cache_labels m =
      kept h.fresh (omega arith) ∙ read-made (gateway_cache_labels m) h in
    (
      memcached_stateful_set config m g,
      create_service_account config.service_account config.namespace config.labels g,
      create_cache_headless_service config g,
      monitor g,
      ap (λ x. x >>= λ b. ok (cache_files config m b.0 b.1)) done,
      same,
      same,
      same,
      λ k.
          added k
          ∙ ap (λ d. if "prometheus" == k then some "app-sre" else lookup k d)
              (read-made (gateway_cache_labels m) h),
    )
