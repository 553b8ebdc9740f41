-- ===== src/Mage/Gateway/Written.antt =====
-- What the target of the gateway generates.
use rhobs.Base.{
  ℕ, ◌<◌, ◌≡◌, refl, ap, ◌∙◌, ◌<>◌, nat_comparable, text_comparable, String, some, List, [], ◌∷◌,
  arith, all,
}
use rhobs.Base.Dict.{insert}
use rhobs.Base.Outcome.{ok, ◌>>=◌}
use rhobs.Base.Outcome.Runs.{Runs, Runs-map, Runs-then, Runs-map, Runs-append, Runs-ok}
use rhobs.Mage.Value.{Object}
use rhobs.Mage.Params.{TemplateMaps, template_fn, observatorium_api, opa_ams, jaeger}
use rhobs.Mage.Params.Lookup.{Need, image, meets, has, is_ok-template_fn}
use rhobs.Mage.Heap.{Heap, read, assign, assign-returned}
use rhobs.Mage.OperatorCr.{File, template, generator}
use rhobs.Mage.Gateway.{selector_labels, Built, gateway_name, gateway_template}
use rhobs.Mage.Gateway.Containers.{
  observatorium_api_container, create_observatorium_api_container, jaeger_agent_container,
  create_jaeger_agent_container,
}
use rhobs.Mage.Gateway.Ams.{opa_ams_container, create_opa_ams_container}
use rhobs.Mage.Gateway.Deployment.{deployment, gateway_deployment}
use rhobs.Mage.Gateway.Service.{service, create_gateway_service}
use rhobs.Mage.Gateway.Config.{
  config_map, gateway_rbac, tenants, stage_gateway_tenants, gateway_template_params,
}
use rhobs.Mage.Gateway.Monitor.{monitor, gateway_service_monitor}
use rhobs.Mage.Gateway.Target.{ams_url, gateway_objects, gateway_files}
use rhobs.Mage.Gateway.Labels.{meta_labels, Made, make}

-- The parameters that the containers look up.
abbrev pub gateway_needs : List Need
gateway_needs = image observatorium_api ∷ image opa_ams ∷ image jaeger ∷ []

module _ (m : TemplateMaps) (namespace : String) where
  api-Runs :
      Runs
        (has observatorium_api m.images)
        (λ v. (i : String) × (v ≡ observatorium_api_container m namespace i))
        (create_observatorium_api_container m namespace)
  unfolding create_observatorium_api_container
  api-Runs =
      rw (← is_ok-template_fn observatorium_api m.images)
        (Runs-map (template_fn observatorium_api m.images) _ λ i. (i, refl))

  opa-Runs :
      (url : String)
      → Runs
          (has opa_ams m.images)
          (λ v. (i : String) × (v ≡ opa_ams_container m namespace url i))
          (create_opa_ams_container m namespace url)
  unfolding create_opa_ams_container
  opa-Runs url =
      rw (← is_ok-template_fn opa_ams m.images)
        (Runs-map (template_fn opa_ams m.images) _ λ i. (i, refl))

agent-Runs :
    (m : TemplateMaps)
    → Runs
        (has jaeger m.images)
        (λ v. (i : String) × (v ≡ jaeger_agent_container m i))
        (create_jaeger_agent_container m)
unfolding create_jaeger_agent_container
agent-Runs m =
    rw (← is_ok-template_fn jaeger m.images)
      (Runs-map (template_fn jaeger m.images) _ λ i. (i, refl))

-- The deployment with the images that were looked up.
abbrev IsDeployment : TemplateMaps → (namespace url : String) → (h : Heap) → Built → Type 0
IsDeployment m namespace url h built =
    (i j k : String) × (built ≡ (
      deployment m namespace (observatorium_api_container m namespace i)
          (opa_ams_container m namespace url j) (jaeger_agent_container m k)
          (some (make m h).labels) (some (make m h).selector),
      (make m h).after,
    ))

gateway_deployment-Runs :
    (m : TemplateMaps) (namespace url : String) (h : Heap)
    → Runs
        (all (meets m) gateway_needs)
        (IsDeployment m namespace url h)
        (gateway_deployment m namespace url h)
unfolding gateway_deployment
gateway_deployment-Runs m namespace url h = rw (make m h).returns (
    Runs-then (create_observatorium_api_container m namespace) _ (api-Runs m namespace)
      λ api (i, p).
        Runs-then (create_opa_ams_container m namespace url) _ (opa-Runs m namespace url)
          λ opa (j, q). Runs-then (create_jaeger_agent_container m) _ (agent-Runs m) λ agent (k, r).
            Runs-ok _ (
              i,
              j,
              k,
              λ t. (
                deployment m namespace (p t) (q t) (r t) (some (make m h).labels)
                    (some (make m h).selector),
                (make m h).after,
              ),
            ))

-- Two files: the template of four objects, and that of the service monitor.
abbrev pub files : (config secret deploy service monitor : Object) → List File
files config secret deploy service monitor =
    record {
      dir = generator "staging" gateway_name;
      name = gateway_template;
      contents =
          template gateway_name (config ∷ secret ∷ deploy ∷ service ∷ []) gateway_template_params;
    }
    ∷ record {
      dir = generator "staging" gateway_name;
      name = "service-monitor-" <> gateway_template;
      contents = template (gateway_name <> "-service-monitor") (monitor ∷ []) [];
    }
    ∷ []

-- The four calls of `gatewayLabels`, the last one's maps being those that are encoded.
module _ (m : TemplateMaps) (h : Heap) where
  abbrev pub first : Made m h
  first = make m h

  abbrev pub second : Made m first.after
  second = make m first.after

  abbrev pub third : Made m second.after
  third = make m second.after

  abbrev pub fourth : Made m third.after
  fourth = make m third.after

  abbrev pub encoded : Heap
  encoded = fourth.after

  pub first_kept :
      (x : ℕ) → x < first.after.fresh → read (some x) encoded ≡ read (some x) first.after
  first_kept x lt =
      fourth.kept x (omega (arith, second.grows, third.grows))
      ∙ third.kept x (omega (arith, second.grows))
      ∙ second.kept x lt

  pub second_kept :
      (x : ℕ) → x < second.after.fresh → read (some x) encoded ≡ read (some x) second.after
  second_kept x lt = fourth.kept x (omega (arith, third.grows)) ∙ third.kept x lt

  pub third_kept :
      (x : ℕ) → x < third.after.fresh → read (some x) encoded ≡ read (some x) third.after
  third_kept x lt = fourth.kept x lt

  abbrev pub objects_of : (namespace rbac i j k : String) → List Object
  objects_of namespace rbac i j k =
      config_map namespace rbac (some first.labels) encoded
      ∷ tenants namespace (some second.labels) encoded
      ∷ deployment m namespace (observatorium_api_container m namespace i)
          (opa_ams_container m namespace ams_url j) (jaeger_agent_container m k) (some third.labels)
          (some third.selector) encoded
      ∷ service namespace (some fourth.labels) (some fourth.selector) encoded
      ∷ []

  pub gateway_objects-Runs :
      (namespace rbac : String)
      → Runs
          (all (meets m) gateway_needs)
          (λ built. (i j k : String) × (built ≡ (objects_of namespace rbac i j k, encoded)))
          (gateway_objects m namespace rbac h)
  unfolding gateway_objects gateway_rbac stage_gateway_tenants create_gateway_service
  gateway_objects-Runs namespace rbac =
      rw (first.returns, second.returns)
        (Runs-append (meets m) gateway_needs []
          (gateway_deployment m namespace ams_url second.after) _
          (gateway_deployment-Runs m namespace ams_url second.after)
          λ built (i, j, k, e). rw (e, fourth.returns) (Runs-ok _ (i, j, k, refl)))

  abbrev pub fifth : Made m encoded
  fifth = make m encoded

  pub monitor_returned :
      (namespace : String)
      → (g : Heap) × (gateway_service_monitor m namespace encoded
          ≡ ok (monitor namespace (some fifth.labels) (some fifth.selector), g))
        × (read (some fifth.labels) g ≡ insert "prometheus" "app-sre" (meta_labels m))
        × (read (some fifth.selector) g ≡ selector_labels)
  unfolding gateway_service_monitor assign
  monitor_returned namespace =
      let (g, done, here, there) =
        assign-returned "prometheus" "app-sre" fifth.labels fifth.after in
      (
        g,
        ap
              (λ r. r >>= λ made. assign made.0.labels "prometheus" "app-sre" made.1 >>= λ after.
                ok (monitor namespace made.0.labels made.0.selector, after))
              fifth.returns
            ∙ ap
                (λ r. r >>= λ after.
                  ok (monitor namespace (some fifth.labels) (some fifth.selector), after))
                done,
        here ∙ ap (insert "prometheus" "app-sre") fifth.labels_read,
        there fifth.selector fifth.apart ∙ fifth.selector_read,
      )

  -- The two files, once the three images are looked up and the service monitor is labelled.
  abbrev pub generated : (namespace rbac i j k : String) → Heap → List File
  generated namespace rbac i j k g =
      files (config_map namespace rbac (some first.labels) encoded)
        (tenants namespace (some second.labels) encoded)
        (deployment m namespace (observatorium_api_container m namespace i)
          (opa_ams_container m namespace ams_url j) (jaeger_agent_container m k) (some third.labels)
          (some third.selector) encoded)
        (service namespace (some fourth.labels) (some fourth.selector) encoded)
        (monitor namespace (some fifth.labels) (some fifth.selector) g)

  abbrev pub IsGenerated : (namespace rbac : String) → List File → Type 0
  IsGenerated namespace rbac fs =
      (i j k : String) × (g : Heap) × (fs ≡ generated namespace rbac i j k g)
      × (read (some fifth.labels) g ≡ insert "prometheus" "app-sre" (meta_labels m))
      × (read (some fifth.selector) g ≡ selector_labels)

  pub gateway_files-Generated :
      (namespace rbac : String)
      → Runs
          (all (meets m) gateway_needs)
          (IsGenerated namespace rbac)
          (gateway_files m namespace rbac h)
  unfolding gateway_files
  gateway_files-Generated namespace rbac =
      Runs-append (meets m) gateway_needs [] (gateway_objects m namespace rbac h) _
        (gateway_objects-Runs namespace rbac)
        λ built (i, j, k, e).
          let (g, done, labelled, selecting) = monitor_returned namespace in
          rw (e, done) (Runs-ok _ (i, j, k, g, refl, labelled, selecting))
