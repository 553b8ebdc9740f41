-- ===== src/Mage/Gateway/Target.antt =====
-- magefiles/gateway.go: `Stage.Gateway`. What encoding/json and the YAML library return is a parameter.
use rhobs.Base.{String, ◌<>◌, text_comparable, List, [], ◌∷◌, map}
use rhobs.Base.Outcome.{Outcome, ok, ◌>>=◌}
use rhobs.Mage.Value.{Object}
use rhobs.Mage.Params.{TemplateMaps}
use rhobs.Mage.Heap.{Heap, read}
use rhobs.Base.{◌⊎◌, inl, inr}
use rhobs.Rbac.{Permission, ObservatoriumRbac}
use rhobs.Rbac.Generate.{generate_rbac}
use rhobs.Mage.OperatorCr.{File, template, generator, stage_namespace}
use rhobs.Mage.Gateway.{gateway_name, gateway_template}
use rhobs.Mage.Gateway.Deployment.{gateway_deployment}
use rhobs.Mage.Gateway.Service.{create_gateway_service}
use rhobs.Mage.Gateway.Config.{gateway_rbac, stage_gateway_tenants, gateway_template_params}
use rhobs.Mage.Gateway.Monitor.{gateway_service_monitor}

-- What `Gateway() error` returns, with the files that it has generated.
pub data Written : Type 0 where
  failed : (message : String) → Written
  written : List File → Written

abbrev pub ams_url : String
ams_url = "https://api.stage.openshift.com"

-- The four objects, one after the other, from one state of the maps to the next.
unfoldable pub gateway_objects :
    TemplateMaps → (namespace rbac_yaml : String) → Heap → Outcome (List Object × Heap)
gateway_objects m namespace rbac_yaml h = do
  rbac ← gateway_rbac m namespace rbac_yaml h
  tenants ← stage_gateway_tenants m namespace rbac.1
  deployment ← gateway_deployment m namespace ams_url tenants.1
  service ← create_gateway_service m namespace deployment.1
  ok (map (λ o. o service.1) (rbac.0 ∷ tenants.0 ∷ deployment.0 ∷ service.0 ∷ []), service.1)

unfoldable pub gateway_files :
    TemplateMaps → (namespace rbac_yaml : String) → Heap → Outcome (List File)
gateway_files m namespace rbac_yaml h = do
  objs ← gateway_objects m namespace rbac_yaml h
  monitor ← gateway_service_monitor m namespace objs.1
  ok (
      record {
        dir = generator "staging" gateway_name;
        name = gateway_template;
        contents = template gateway_name objs.0 gateway_template_params;
      }
      ∷ record {
        dir = generator "staging" gateway_name;
        name = "service-monitor-" <> gateway_template;
        contents = template (gateway_name <> "-service-monitor") (monitor.0 monitor.1 ∷ []) [];
      }
      ∷ [])

-- What follows the encoding: the early return of its error, or the files.
unfoldable pub conclude : TemplateMaps → Heap → String ⊎ String → Outcome Written
conclude m h (inl e) = ok (failed e)
conclude m h (inr y) = do files ← gateway_files m stage_namespace y h; ok (written files)

module _ (marshal : ObservatoriumRbac → String ⊎ String)
    (json_to_yaml : String → String ⊎ String) where
  -- The text of the RBAC configuration, or the message of the error that is returned.
  abbrev pub rbac_yaml : ObservatoriumRbac → String ⊎ String
  rbac_yaml o = elim (marshal o) [
    | inl e ↦ inl ("failed to marshal RBAC configuration: " <> e)
    | inr b ↦ elim (json_to_yaml b) [
      | inl e ↦ inl ("failed to convert RBAC configuration to YAML: " <> e)
      | inr y ↦ inr y
    ]
  ]

  unfoldable pub gateway : (write read : Permission) → TemplateMaps → Heap → Outcome Written
  gateway write read m h = do o ← generate_rbac write read; conclude m h (rbac_yaml o)
