-- ===== src/Mage/Gateway/Ams.antt =====
-- magefiles/gateway.go: the container that authorizes requests.
use rhobs.Base.{String, ◌<>◌, text_comparable}
use rhobs.Base.Outcome.{Outcome, ok, ◌>>=◌}
use rhobs.Mage.Value.{Value, text, num, constant, call, list, struct, end, ◌&◌, done, ◌:=◌, ◌⊕◌}
use rhobs.Mage.Params.{TemplateMaps, index, template_fn, api_cache, opa_ams}
use rhobs.Mage.Gateway.{gateway_name, component_opa_ams}
use rhobs.Mage.Cache.{gateway_cache_name}

abbrev pub opa_ams_container :
    TemplateMaps → (namespace ams_url : String) → (image : String) → Value
opa_ams_container m namespace ams_url image = struct (
    "Name" := text component_opa_ams
    ⊕ "Image" := text image
    ⊕ "Args"
      := list (
          text "--web.listen=127.0.0.1:8082"
          & text "--web.internal.listen=0.0.0.0:8083"
          & text "--web.healthchecks.url=http://127.0.0.1:8082"
          & text "--log.level=warn"
          & text ("--ams.url=" <> ams_url)
          & text "--resource-type-prefix=observatorium"
          & text "--oidc.client-id=$(CLIENT_ID)"
          & text "--oidc.client-secret=$(CLIENT_SECRET)"
          & text "--oidc.issuer-url=$(ISSUER_URL)"
          & text "--opa.package=observatorium"
          & text (
              "--memcached="
              <> (gateway_cache_name <> ("." <> (namespace <> ".svc.cluster.local:11211"))))
          & text "--memcached.expire=300"
          & text "--ams.mappings=osd=${OSD_ORGANIZATION_ID}"
          & text "--ams.mappings=osd=${SD_OPS_ORGANIZATION_ID}"
          & text "--ams.mappings=cnvqe={CNVQE_ORGANIZATION_ID}"
          & text "--internal.tracing.endpoint=localhost:6831"
          & end)
    ⊕ "Env"
      := list (
          struct (
            "Name" := text "ISSUER_URL"
            ⊕ "ValueFrom"
              := struct (
                  "SecretKeyRef"
                    := struct (
                        "LocalObjectReference" := struct ("Name" := text gateway_name ⊕ done)
                        ⊕ "Key" := text "issuer-url"
                        ⊕ done)
                  ⊕ done)
            ⊕ done)
          & struct (
              "Name" := text "CLIENT_ID"
              ⊕ "ValueFrom"
                := struct (
                    "SecretKeyRef"
                      := struct (
                          "LocalObjectReference" := struct ("Name" := text gateway_name ⊕ done)
                          ⊕ "Key" := text "client-id"
                          ⊕ done)
                    ⊕ done)
              ⊕ done)
          & struct (
              "Name" := text "CLIENT_SECRET"
              ⊕ "ValueFrom"
                := struct (
                    "SecretKeyRef"
                      := struct (
                          "LocalObjectReference" := struct ("Name" := text gateway_name ⊕ done)
                          ⊕ "Key" := text "client-secret"
                          ⊕ done)
                    ⊕ done)
              ⊕ done)
          & end)
    ⊕ "Ports"
      := list (
          struct ("Name" := text "opa-ams-api" ⊕ "ContainerPort" := num 8082 ⊕ done)
          & struct ("Name" := text "opa-ams-metrics" ⊕ "ContainerPort" := num 8083 ⊕ done)
          & end)
    ⊕ "Resources" := (index api_cache m.resource_requirements (struct done))
    ⊕ "LivenessProbe"
      := struct (
          "ProbeHandler"
            := struct (
                "HTTPGet"
                  := struct (
                      "Path" := text "/live"
                      ⊕ "Port" := call "intstr.FromInt32" (num 8083 & end)
                      ⊕ "Scheme" := constant "corev1.URISchemeHTTP"
                      ⊕ done)
                ⊕ done)
          ⊕ "FailureThreshold" := num 10
          ⊕ "PeriodSeconds" := num 30
          ⊕ done)
    ⊕ "ReadinessProbe"
      := struct (
          "ProbeHandler"
            := struct (
                "HTTPGet"
                  := struct (
                      "Path" := text "/ready"
                      ⊕ "Port" := call "intstr.FromInt32" (num 8083 & end)
                      ⊕ "Scheme" := constant "corev1.URISchemeHTTP"
                      ⊕ done)
                ⊕ done)
          ⊕ "FailureThreshold" := num 12
          ⊕ "PeriodSeconds" := num 5
          ⊕ done)
    ⊕ done)

unfoldable pub create_opa_ams_container :
    TemplateMaps → (namespace ams_url : String) → Outcome Value
unfolding template_fn index
create_opa_ams_container m namespace ams_url = do
  image ← template_fn opa_ams m.images
  ok (opa_ams_container m namespace ams_url image)
