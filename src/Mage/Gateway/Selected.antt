-- ===== src/Mage/Gateway/Selected.antt =====
-- The labels of what the target of the gateway writes, and what selects them.
use mathlib.Core.Path.{subst}
use rhobs.Base.{
  ◌≡◌, refl, ap, ◌∙◌, ◌==◌, ◌<>◌, nat_comparable, text_comparable, String, false, none, some, List,
  [], ◌∷◌, arith, all, All, Bool-cases, ◌⊎◌, inl, inr,
}
use rhobs.Base.Dict.{Dict, lookup, insert, lookup-insert}
use rhobs.Base.Outcome.{ok, ◌>>=◌}
use rhobs.Base.Outcome.Runs.{Runs, Runs-mono, Runs-append, Runs-ok}
use rhobs.Mage.Value.{Object, struct}
use rhobs.Mage.Paths.{at, strings}
use rhobs.Mage.Params.{TemplateMaps, index, observatorium_api}
use rhobs.Mage.Params.Lookup.{meets}
use rhobs.Mage.Heap.{Heap, read, copy_loop, lookup-copy_loop}
use rhobs.Mage.OperatorCr.{File}
use rhobs.Mage.Gateway.{selector_labels}
use rhobs.Mage.Gateway.Containers.{observatorium_api_container, jaeger_agent_container}
use rhobs.Mage.Gateway.Ams.{opa_ams_container}
use rhobs.Mage.Gateway.Deployment.{deployment}
use rhobs.Mage.Gateway.Service.{service}
use rhobs.Mage.Gateway.Config.{config_map, tenants}
use rhobs.Mage.Gateway.Monitor.{monitor}
use rhobs.Mage.Gateway.Target.{ams_url, gateway_files}
use rhobs.Mage.Gateway.Labels.{meta_labels}
use rhobs.Mage.Gateway.Target.{gateway, conclude, rbac_yaml, failed, written}
use rhobs.Rbac.{Permission, ObservatoriumRbac, Subject, RoleMapKey}
use rhobs.Rbac.Spec.{permits}
use rhobs.Rbac.Generate.Permits.{listed, generate_rbac-permits}
use rhobs.Base.Text.{contains_char}
use rhobs.Rbac.Generate.{generate_rbac}
use rhobs.Mage.OperatorCr.{stage_namespace}
use rhobs.Mage.Gateway.Written.{
  gateway_needs, first, second, third, fourth, encoded, first_kept, second_kept, third_kept, files,
  fifth, gateway_files-Generated,
}

-- The map at a path of an object's body.
abbrev pub map_at : List String → Object → Dict String String
map_at path o = strings (at path (struct o.body))

-- What is written: each object has the labels of the gateway, the pods that the deployment makes as well,
-- and what selects them is `selector_labels`, whose entries are all among those labels.
pub record Selects (m : TemplateMaps) (rbac : String)
    (config secret deploy service monitor : Object) : Type 0 where
  pub labels : All (λ o. o.labels ≡ meta_labels m) (config ∷ secret ∷ deploy ∷ service ∷ [])
  pub monitor_labels : monitor.labels ≡ insert "prometheus" "app-sre" (meta_labels m)
  pub pods : map_at ("Spec" ∷ "Template" ∷ "ObjectMeta" ∷ "Labels" ∷ []) deploy ≡ meta_labels m
  pub deploy_selector : map_at ("Spec" ∷ "Selector" ∷ "MatchLabels" ∷ []) deploy ≡ selector_labels
  pub service_selector : map_at ("Spec" ∷ "Selector" ∷ []) service ≡ selector_labels
  pub monitor_selector : map_at ("Spec" ∷ "Selector" ∷ "MatchLabels" ∷ []) monitor ≡ selector_labels
  pub selected :
      (k v : String) → lookup k selector_labels ≡ some v → lookup k (meta_labels m) ≡ some v
  pub configured : map_at ("Data" ∷ []) config ≡ ("rbac.yaml", rbac) ∷ []

selected_lem :
    (m : TemplateMaps) (k v : String)
    → lookup k selector_labels ≡ some v
    → lookup k (meta_labels m) ≡ some v
unfolding lookup
selected_lem m k v e =
    let key : String = "app.kubernetes.io/version" in
    elim (Bool-cases (key == k)) [
      | inl here ↦
          let same : key ≡ k = (text_comparable.equal_iff key k).0 here in
          let missing : lookup k selector_labels ≡ none =
            subst (λ j. lookup j selector_labels ≡ none) same refl in
          cc
      | inr there ↦
          lookup-insert k key (index observatorium_api m.versions "") (copy_loop selector_labels)
          ∙ rw there (lookup-copy_loop k selector_labels ∙ e)
    ]

module _ (m : TemplateMaps) (h : Heap) (namespace rbac : String) where
  objects-Selects :
      (i j k : String) (g : Heap)
      → read (some (fifth m h).labels) g ≡ insert "prometheus" "app-sre" (meta_labels m)
      → read (some (fifth m h).selector) g ≡ selector_labels
      → Selects m rbac
          (config_map namespace rbac (some (first m h).labels) (encoded m h))
          (tenants namespace (some (second m h).labels) (encoded m h))
          (deployment m namespace
            (observatorium_api_container m namespace i)
            (opa_ams_container m namespace ams_url j)
            (jaeger_agent_container m k)
            (some (third m h).labels)
            (some (third m h).selector)
            (encoded m h))
          (service namespace (some (fourth m h).labels) (some (fourth m h).selector) (encoded m h))
          (monitor namespace (some (fifth m h).labels) (some (fifth m h).selector) g)
  objects-Selects i j k g labelled selecting =
      let third_labels : read (some (third m h).labels) (encoded m h) ≡ meta_labels m =
        third_kept m h _ (third m h).labels_below ∙ (third m h).labels_read in
      record {
        labels = (
          first_kept m h _ (first m h).labels_below ∙ (first m h).labels_read,
          (
            second_kept m h _ (second m h).labels_below ∙ (second m h).labels_read,
            (third_labels, ((fourth m h).labels_read, tt)),
          ),
        );
        monitor_labels = labelled;
        pods = third_labels;
        deploy_selector = third_kept m h _ (third m h).selector_below ∙ (third m h).selector_read;
        service_selector = (fourth m h).selector_read;
        monitor_selector = selecting;
        selected = selected_lem m;
        configured = refl;
      }

  -- The two files of the gateway.
  abbrev IsWritten : List File → Type 0
  IsWritten fs =
      (config secret deploy service monitor : Object) × (fs
        ≡ files config secret deploy service monitor)
      × Selects m rbac config secret deploy service monitor

  pub gateway_files-Runs :
      Runs (all (meets m) gateway_needs) IsWritten (gateway_files m namespace rbac h)
  gateway_files-Runs =
      Runs-mono (gateway_files m namespace rbac h) (gateway_files-Generated m h namespace rbac)
        λ fs (i, j, k, g, e, labelled, selecting). (
          config_map namespace rbac (some (first m h).labels) (encoded m h),
          tenants namespace (some (second m h).labels) (encoded m h),
          deployment m namespace (observatorium_api_container m namespace i)
              (opa_ams_container m namespace ams_url j) (jaeger_agent_container m k)
              (some (third m h).labels) (some (third m h).selector) (encoded m h),
          service namespace (some (fourth m h).labels) (some (fourth m h).selector) (encoded m h),
          monitor namespace (some (fifth m h).labels) (some (fifth m h).selector) g,
          e,
          objects-Selects i j k g labelled selecting,
        )

module _ (marshal : ObservatoriumRbac → String ⊎ String) (json_to_yaml : String → String ⊎ String)
    (write read : Permission) (m : TemplateMaps) (h : Heap) where
  -- How the target ends once the configuration is generated.
  pub record Ends (o : ObservatoriumRbac) : Type 0 where
    pub not_marshalled :
        (e : String)
        → marshal o ≡ inl e
        → gateway marshal json_to_yaml write read m h
          ≡ ok (failed ("failed to marshal RBAC configuration: " <> e))
    pub not_converted :
        (b e : String)
        → marshal o ≡ inr b
        → json_to_yaml b ≡ inl e
        → gateway marshal json_to_yaml write read m h
          ≡ ok (failed ("failed to convert RBAC configuration to YAML: " <> e))
    pub generated :
        (b y : String)
        → marshal o ≡ inr b
        → json_to_yaml b ≡ inr y
        → Runs
            (all (meets m) gateway_needs)
            (λ w. (fs : List File) × (w ≡ written fs) × IsWritten m h stage_namespace y fs)
            (gateway marshal json_to_yaml write read m h)

  gateway-conclude :
      (o : ObservatoriumRbac) (r : String ⊎ String)
      → generate_rbac write read ≡ ok o
      → rbac_yaml marshal json_to_yaml o ≡ r
      → gateway marshal json_to_yaml write read m h ≡ conclude m h r
  unfolding gateway
  gateway-conclude o r e p =
      ap (λ x. x >>= λ c. conclude m h (rbac_yaml marshal json_to_yaml c)) e ∙ ap (conclude m h) p

  gateway-Ends_of_rbac : (o : ObservatoriumRbac) → generate_rbac write read ≡ ok o → Ends o
  unfolding conclude
  gateway-Ends_of_rbac o e = record {
    not_marshalled = λ x p.
        gateway-conclude o (inl ("failed to marshal RBAC configuration: " <> x)) e
          (ground (arith, p));
    not_converted = λ b x p q.
        gateway-conclude o (inl ("failed to convert RBAC configuration to YAML: " <> x)) e
          (ground (arith, p, q));
    generated = λ b y p q.
        let text : rbac_yaml marshal json_to_yaml o ≡ inr y = ground (arith, p, q) in
        rw (gateway-conclude o (inr y) e text) (
          Runs-append (meets m) gateway_needs [] (gateway_files m stage_namespace y h) _
            (gateway_files-Runs m h stage_namespace y) λ fs i. Runs-ok _ (fs, refl, i));
  }

  -- Stage.Gateway, for permissions whose names have no dash: the configuration that it hands to the
  -- encoder is that of `GenerateRBAC`, which permits to a subject exactly what the source lists for it.
  -- It returns the error of either encoder with its prefix. Else it panics exactly if one of the images
  -- of the three containers is not in the map, and otherwise writes two files: the template of the
  -- configuration, which holds the encoded text, the tenants, the deployment and the service, and that
  -- of the service monitor. Each object has the labels of the gateway, the service monitor also the
  -- one that says who scrapes it. The deployment, the service and the service monitor select the same
  -- labels, which are among those of the pods that the deployment makes.
  pub gateway-Ends :
      contains_char write "-" ≡ false
      → contains_char read "-" ≡ false
      → (o : ObservatoriumRbac) × (generate_rbac write read ≡ ok o)
        × ((s : Subject) (r : RoleMapKey) → permits o s r ≡ listed write read s r)
        × Ends o
  gateway-Ends w r =
      let (o, e, consistent, exact) = generate_rbac-permits write read w r in
      (o, e, exact, gateway-Ends_of_rbac o e)
