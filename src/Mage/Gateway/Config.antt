-- ===== src/Mage/Gateway/Config.antt =====
-- magefiles/gateway.go: the configuration of the gateway, and the parameters of its template.
use rhobs.Base.{String, text_comparable, List, [], ◌∷◌}
use rhobs.Base.Outcome.{Outcome, ok, ◌>>=◌}
use rhobs.Mage.Value.{Fields, Object, text, string_map, done, ◌:=◌, ◌⊕◌}
use rhobs.Mage.Params.{TemplateMaps}
use rhobs.Mage.Heap.{Ref, Heap, read}
use rhobs.Mage.Gateway.{gateway_name, gateway_labels, Built}

abbrev pub config_map : (namespace contents : String) → Ref → Heap → Object
config_map namespace contents labels h = record {
  api_version = "v1";
  kind = "ConfigMap";
  name = gateway_name;
  namespace = namespace;
  labels = (read labels h);
  annotations = [];
  body = "Data" := string_map (("rbac.yaml", contents) ∷ []) ⊕ done;
}

unfoldable pub gateway_rbac : TemplateMaps → (namespace contents : String) → Heap → Outcome Built
unfolding read
gateway_rbac m namespace contents h = do
  made ← gateway_labels m h
  ok (config_map namespace contents made.0.labels, made.1)

abbrev pub tenants_yaml : String
tenants_yaml =
    "tenants:\n      - id: 0fc2b00e-201b-4c17-b9f2-19d91adc4fd2\n        name: rhobs\n        oidc:\n          clientID: ${CLIENT_ID}\n          clientSecret: ${CLIENT_SECRET}\n          issuerURL: https://sso.redhat.com/auth/realms/redhat-external\n          redirectURL: https://observatorium.api.stage.openshift.com/oidc/rhobs/callback\n          usernameClaim: preferred_username\n          groupClaim: email\n      - id: 770c1124-6ae8-4324-a9d4-9ce08590094b\n        name: osd\n        oidc:\n          clientID: ${CLIENT_ID}\n          clientSecret: ${CLIENT_SECRET}\n          issuerURL: https://sso.redhat.com/auth/realms/redhat-external\n          redirectURL: https://observatorium-mst.api.stage.openshift.com/oidc/osd/callback\n          usernameClaim: preferred_username\n        opa:\n          url: http://127.0.0.1:8082/v1/data/observatorium/allow\n        rateLimits:\n        - endpoint: /api/metrics/v1/.+/api/v1/receive\n          limit: 10000\n          window: 30s\n      - id: 1b9b6e43-9128-4bbf-bfff-3c120bbe6f11\n        name: rhacs\n        oidc:\n          clientID: ${CLIENT_ID}\n          clientSecret: ${CLIENT_SECRET}\n          issuerURL: https://sso.redhat.com/auth/realms/redhat-external\n          redirectURL: https://observatorium-mst.api.stage.openshift.com/oidc/rhacs/callback\n          usernameClaim: preferred_username\n      - id: 9ca26972-4328-4fe3-92db-31302013d03f\n        name: cnvqe\n        oidc:\n          clientID: ${CLIENT_ID}\n          clientSecret: ${CLIENT_SECRET}\n          issuerURL: https://sso.redhat.com/auth/realms/redhat-external\n          redirectURL: https://observatorium-mst.api.stage.openshift.com/oidc/cnvqe/callback\n          usernameClaim: preferred_username\n      - id: 37b8fd3f-56ff-4b64-8272-917c9b0d1623\n        name: psiocp\n        oidc:\n          clientID: ${CLIENT_ID}\n          clientSecret: ${CLIENT_SECRET}\n          issuerURL: https://sso.redhat.com/auth/realms/redhat-external\n          redirectURL: https://observatorium-mst.api.stage.openshift.com/oidc/psiocp/callback\n          usernameClaim: preferred_username\n      - id: 8ace13a2-1c72-4559-b43d-ab43e32a255a\n        name: rhods\n        oidc:\n          clientID: ${CLIENT_ID}\n          clientSecret: ${CLIENT_SECRET}\n          issuerURL: https://sso.redhat.com/auth/realms/redhat-external\n          redirectURL: https://observatorium-mst.api.stage.openshift.com/oidc/rhods/callback\n          usernameClaim: preferred_username\n      - id: 99c885bc-2d64-4c4d-b55e-8bf30d98c657\n        name: odfms\n        oidc:\n          clientID: ${CLIENT_ID}\n          clientSecret: ${CLIENT_SECRET}\n          issuerURL: https://sso.redhat.com/auth/realms/redhat-external\n          redirectURL: https://observatorium-mst.api.stage.openshift.com/oidc/odfms/callback\n          usernameClaim: preferred_username\n      - id: d17ea8ce-d4c6-42ef-b259-7d10c9227e93\n        name: reference-addon\n        oidc:\n          clientID: ${CLIENT_ID}\n          clientSecret: ${CLIENT_SECRET}\n          issuerURL: https://sso.redhat.com/auth/realms/redhat-external\n          redirectURL: https://observatorium-mst.api.stage.openshift.com/oidc/reference-addon/callback\n          usernameClaim: preferred_username\n      - id: AC879303-C60F-4D0D-A6D5-A485CFD638B8\n        name: dptp\n        oidc:\n          clientID: ${CLIENT_ID}\n          clientSecret: ${CLIENT_SECRET}\n          issuerURL: https://sso.redhat.com/auth/realms/redhat-external\n          redirectURL: https://observatorium-mst.api.stage.openshift.com/oidc/dptp/callback\n          usernameClaim: preferred_username\n      - id: 3833951d-bede-4a53-85e5-f73f4913973f\n        name: appsre\n        oidc:\n          clientID: ${CLIENT_ID}\n          clientSecret: ${CLIENT_SECRET}\n          issuerURL: https://sso.redhat.com/auth/realms/redhat-external\n          redirectURL: https://observatorium-mst.api.stage.openshift.com/oidc/appsre/callback\n          usernameClaim: preferred_username\n      - id: 0031e8d6-e50a-47ea-aecb-c7e0bd84b3f1\n        name: rhtap\n        oidc:\n          clientID: ${CLIENT_ID}\n          clientSecret: ${CLIENT_SECRET}\n          issuerURL: https://sso.redhat.com/auth/realms/redhat-external\n          redirectURL: https://observatorium-mst.api.stage.openshift.com/oidc/rhtap/callback\n          usernameClaim: preferred_username\n      - id: 72e6f641-b2e2-47eb-bbc2-fee3c8fbda26\n        name: rhel\n        oidc:\n          clientID: ${CLIENT_ID}\n          clientSecret: ${CLIENT_SECRET}\n          issuerURL: https://sso.redhat.com/auth/realms/redhat-external\n          redirectURL: https://observatorium-mst.api.stage.openshift.com/oidc/rhel/callback\n          usernameClaim: preferred_username\n        rateLimits:\n        - endpoint: '/api/metrics/v1/rhel/api/v1/receive'\n          limit: 10000\n          window: 30s\n      - id: FB870BF3-9F3A-44FF-9BF7-D7A047A52F43\n        name: telemeter\n        oidc:\n          clientID: ${CLIENT_ID}\n          clientSecret: ${CLIENT_SECRET}\n          issuerURL: https://sso.redhat.com/auth/realms/redhat-external\n          redirectURL: https://observatorium.api.stage.openshift.com/oidc/telemeter/callback\n          usernameClaim: preferred_username\n"

abbrev pub tenants : (namespace : String) → Ref → Heap → Object
tenants namespace labels h = record {
  api_version = "v1";
  kind = "Secret";
  name = gateway_name;
  namespace = namespace;
  labels = (read labels h);
  annotations = ("qontract.recycle", "true") ∷ [];
  body =
      "StringData"
        := string_map (
            ("client-id", "${CLIENT_ID}")
            ∷ ("client-secret", "${CLIENT_SECRET}")
            ∷ ("issuer-url", "https://sso.redhat.com/auth/realms/redhat-external")
            ∷ ("tenants.yaml", tenants_yaml)
            ∷ [])
      ⊕ done;
}

unfoldable pub stage_gateway_tenants : TemplateMaps → (namespace : String) → Heap → Outcome Built
unfolding read
stage_gateway_tenants m namespace h = do
  made ← gateway_labels m h
  ok (tenants namespace made.0.labels, made.1)

abbrev pub gateway_template_params : List Fields
gateway_template_params =
    ("Name" := text "OSD_ORGANIZATION_ID" ⊕ "Description" := text "Organization ID for OSD" ⊕ done)
    ∷ ("Name" := text "SD_OPS_ORGANIZATION_ID"
        ⊕ "Description" := text "Organization ID for SD Ops"
        ⊕ done)
    ∷ ("Name" := text "CNVQE_ORGANIZATION_ID"
        ⊕ "Description" := text "Organization ID for CNVQE"
        ⊕ done)
    ∷ ("Name" := text "CLIENT_ID" ⊕ "Description" := text "Client ID for OIDC" ⊕ done)
    ∷ ("Name" := text "CLIENT_SECRET" ⊕ "Description" := text "Client secret for OIDC" ⊕ done)
    ∷ []
