-- ===== src/Mage/Operator/Resources.antt =====
-- magefiles/operator.go: `operatorResources` and the two `Operator` targets.
use rhobs.Base.{String, text_comparable, nat_comparable, List, [], ◌∷◌, ◌++◌}
use rhobs.Base.Outcome.{Outcome, ok, ◌>>=◌}
use rhobs.Mage.Value.{Object, done}
use rhobs.Mage.Params.{TemplateMaps}
use rhobs.Mage.Params.Resources.{stage_maps}
use rhobs.Mage.Params.Local.{local_maps}
use rhobs.Mage.OperatorCr.{
  File, template, documents, generator, first_items, stage_namespace, local_namespace,
}
use rhobs.Mage.Operator.Accounts.{
  service_account, leader_election_role, metrics_reader_role, proxy_role,
}
use rhobs.Mage.Operator.Manager.{manager_role}
use rhobs.Mage.Operator.Editors.{
  query_editor_role, compact_editor_role, receive_editor_role, ruler_editor_role, store_editor_role,
}
use rhobs.Mage.Operator.Viewers.{
  query_viewer_role, compact_viewer_role, receive_viewer_role, ruler_viewer_role, store_viewer_role,
}
use rhobs.Mage.Operator.Bindings.{
  leader_election_binding, metrics_service, manager_binding, proxy_binding,
}
use rhobs.Mage.Operator.Deployment.{operator_deployment}

-- The literals before the deployment, in their order.
abbrev pub literals : (namespace : String) → List Object
literals namespace =
    service_account namespace
    ∷ leader_election_role namespace
    ∷ manager_role
    ∷ metrics_reader_role
    ∷ proxy_role
    ∷ query_editor_role
    ∷ query_viewer_role
    ∷ compact_editor_role
    ∷ compact_viewer_role
    ∷ receive_editor_role
    ∷ receive_viewer_role
    ∷ ruler_editor_role
    ∷ ruler_viewer_role
    ∷ store_editor_role
    ∷ store_viewer_role
    ∷ leader_election_binding namespace
    ∷ metrics_service namespace
    ∷ manager_binding namespace
    ∷ proxy_binding namespace
    ∷ []

unfoldable pub operator_resources : (namespace : String) → TemplateMaps → Outcome (List Object)
operator_resources namespace m = do
  deployment ← operator_deployment namespace m
  ok (literals namespace ++ (deployment ∷ []))

unfoldable pub stage_operator : Outcome File
stage_operator = do
  objs ← operator_resources stage_namespace stage_maps
  ok (record {
    dir = generator "staging" "bundle";
    name = "operator.yaml";
    contents = template "thanos-operator-manager" objs [];
  })

abbrev pub namespace_object : Object
namespace_object = record {
  api_version = "v1";
  kind = "Namespace";
  name = local_namespace;
  namespace = "";
  labels = [];
  annotations = [];
  body = done;
}

-- The encoder is given the namespace and `objs[0]` to `objs[19]`.
unfoldable pub local_operator : Outcome File
local_operator = do
  objs ← operator_resources local_namespace local_maps
  items ← first_items 20 objs
  ok (record {
    dir = generator "local" "bundle";
    name = "operator.yaml";
    contents = documents (namespace_object ∷ items);
  })
