-- ===== src/Mage/Gateway.antt =====
-- magefiles/gateway.go: the Observatorium API gateway. The names, and the labels that its objects
-- refer to. An object that is not encoded yet is a function of the maps.
pub mod Containers
pub mod Ams
pub mod Deployment
pub mod Service
pub mod Config
pub mod Monitor
pub mod Target
pub mod Labels
pub mod Written
pub mod Selected
pub mod References
pub mod Placeholders
pub mod Tenants
mod Tests
use rhobs.Base.{ℕ, String, ◌<>◌, Bool, true, false, ◌==◌, text_comparable, List, [], ◌∷◌, ◌++◌, map}
use rhobs.Base.Dict.{Dict}
use rhobs.Base.Outcome.{Outcome, ok, panic, ◌>>=◌}
use rhobs.Mage.Value.{
  Value, Values, Fields, Object, text, num, flag, constant, call, list, struct, string_map, end,
  ◌&◌, done, ◌:=◌, ◌⊕◌,
}
use rhobs.Mage.Params.{
  TemplateMaps, index, template_fn, observatorium_api, api_cache, opa_ams, jaeger,
}
use rhobs.Mage.Heap.{Ref, Heap, read, make_map, assign, deep_copy_map}

abbrev pub gateway_name : String
gateway_name = "observatorium-api"

abbrev pub gateway_template : String
gateway_template = "observatorium-api-template.yaml"

abbrev pub component_opa_ams : String
component_opa_ams = "opa-ams"

abbrev pub component_jaeger_agent : String
component_jaeger_agent = "jaeger-agent"

abbrev pub qfe_service : String
qfe_service = "thanos-query-frontend-rhobs"

abbrev pub router_service : String
router_service = "thanos-receive-router-rhobs"

-- magefiles/alertmanager.go
abbrev pub alert_manager_name : String
alert_manager_name = "alertmanager"

abbrev pub selector_labels : Dict String String
selector_labels =
    ("app.kubernetes.io/component", "api")
    ∷ ("app.kubernetes.io/instance", "rhobs")
    ∷ ("app.kubernetes.io/name", gateway_name)
    ∷ ("app.kubernetes.io/part-of", "rhobs")
    ∷ []

-- The two maps that `gatewayLabels` returns.
pub record GatewayLabels : Type 0 where
  pub labels : Ref
  pub selector : Ref

-- An object that refers to maps, and the maps when it is built.
abbrev pub Built : Type 0
Built = (Heap → Object) × Heap

unfoldable pub gateway_labels : TemplateMaps → Heap → Outcome (GatewayLabels × Heap)
unfolding make_map deep_copy_map assign index
gateway_labels m h =
    let (selector, h1) = make_map selector_labels h in
    let (labels, h2) = deep_copy_map selector h1 in
    do
      h3 ← assign labels "app.kubernetes.io/version" (index observatorium_api m.versions "") h2
      ok (record { labels = labels; selector = selector }, h3)
