-- ===== src/Mage/Library.antt =====
-- magefiles/lib.go: the OAuth proxy container, and writing into a value that is being built.
use rhobs.Base.{ℕ, String, ◌<>◌, true, ◌==◌, text_comparable, if◌then◌else◌, List, [], ◌∷◌}
use rhobs.Base.Text.Decimal.{show}
use rhobs.Mage.Value.{
  Value, Fields, text, num, flag, constant, call, list, struct, end, ◌&◌, done, field, ◌:=◌, ◌⊕◌,
  append_value,
}

-- kghelpers.NewPodVolumeFromSecret
abbrev pub pod_volume_from_secret : String → String → Value
pod_volume_from_secret name secret =
    call "kghelpers.NewPodVolumeFromSecret" (text name & text secret & end)

unfoldable pub make_oauth_proxy : ℕ → String → String → String → Value
unfolding show
make_oauth_proxy upstream_port namespace service_account tls_secret = struct (
    "Name" := text "oauth-proxy"
    ⊕ "Image" := text "registry.redhat.io/openshift4/ose-oauth-proxy"
    ⊕ "ImageTag" := text "v4.14"
    ⊕ "Args"
      := list (
          text "-provider=openshift"
          & text ("-https-address=:" <> show 8443)
          & text "-http-address="
          & text "-email-domain=*"
          & text ("-upstream=http://localhost:" <> show upstream_port)
          & text ("-openshift-service-account=" <> service_account)
          & text (
              "-openshift-sar={\"resource\": \"namespaces\", \"verb\": \"get\", \"name\": \""
              <> (namespace <> ("\", \"namespace\": \"" <> (namespace <> "\"}"))))
          & text (
              "-openshift-delegate-urls={\"/\": {\"resource\": \"namespaces\", \"verb\": \"get\", \"name\": \""
              <> (namespace <> ("\", \"namespace\": \"" <> (namespace <> "\"}}"))))
          & text "-tls-cert=/etc/tls/private/tls.crt"
          & text "-tls-key=/etc/tls/private/tls.key"
          & text "-client-secret-file=/var/run/secrets/kubernetes.io/serviceaccount/token"
          & text "-cookie-secret=${OAUTH_PROXY_COOKIE_SECRET}"
          & text "-openshift-ca=/etc/pki/tls/cert.pem"
          & text "-openshift-ca=/var/run/secrets/kubernetes.io/serviceaccount/ca.crt"
          & end)
    ⊕ "Resources"
      := call "kghelpers.NewResourcesRequirements"
          (text "100m" & text "" & text "100Mi" & text "" & end)
    ⊕ "Ports"
      := list (
          struct (
            "Name" := text "https"
            ⊕ "ContainerPort" := num 8443
            ⊕ "Protocol" := constant "corev1.ProtocolTCP"
            ⊕ done)
          & end)
    ⊕ "ServicePorts"
      := list (call "kghelpers.NewServicePort" (text "https" & num 8443 & num 8443 & end) & end)
    ⊕ "VolumeMounts"
      := list (
          struct (
            "Name" := text "tls"
            ⊕ "MountPath" := text "/etc/tls/private"
            ⊕ "ReadOnly" := flag true
            ⊕ done)
          & end)
    ⊕ "Volumes"
      := list (call "kghelpers.NewPodVolumeFromSecret" (text "tls" & text tls_secret & end) & end)
    ⊕ done)

-- `append(v, item)` where `v` is a slice that is there or nil.
abbrev append_to : Value → Value → Value
append_to (list vs) item = list (append_value vs item)
append_to v item = v

abbrev inner_fields : Value → Fields
inner_fields (struct fs) = fs
inner_fields v = done

-- Applies `f` to the value of a field, or to a default where the field is not set.
abbrev update : String → Value → (Value → Value) → Fields → Fields
update k zero_value f done = field k (f zero_value) done
update k zero_value f (field j v fs) =
    if j == k then field j (f v) fs else field j v (update k zero_value f fs)

-- `x.A.B = append(x.A.B, item)`: the path names fields of nested structs.
unfoldable pub append_at : List String → Value → Fields → Fields
append_at [] item fs = fs
append_at (k ∷ []) item fs = update k (list end) (λ v. append_to v item) fs
append_at (k ∷ j ∷ path) item fs =
    update k (struct done) (λ v. struct (append_at (j ∷ path) item (inner_fields v))) fs

-- `x.A.B = item`
unfoldable pub set_at : List String → Value → Fields → Fields
set_at [] item fs = fs
set_at (k ∷ []) item fs = update k item (λ v. item) fs
set_at (k ∷ j ∷ path) item fs =
    update k (struct done) (λ v. struct (set_at (j ∷ path) item (inner_fields v))) fs
