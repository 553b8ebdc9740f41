-- ===== src/Mage/Secrets.antt =====
-- magefiles/secrets.go: the secrets of the object stores.
pub mod References
pub mod Placeholders
use rhobs.Base.{String, text_comparable, List, [], ◌∷◌}
use rhobs.Mage.Value.{Object, Fields, text, constant, string_map, done, ◌:=◌, ◌⊕◌}
use rhobs.Mage.OperatorCr.{File, template, documents, generator, stage_namespace, local_namespace}

unfoldable pub thanos_object_store_secret : (name namespace : String) → Object
thanos_object_store_secret name namespace = record {
  api_version = "v1";
  kind = "Secret";
  name = name;
  namespace = namespace;
  labels = ("app.kubernetes.io/name", name) ∷ [];
  annotations = [];
  body =
      "Type" := constant "corev1.SecretTypeOpaque"
      ⊕ "StringData"
        := string_map (
            (
              "thanos.yaml",
              "type: S3\nconfig:\n  bucket: ${S3_BUCKET_NAME}\n  region: ${S3_BUCKET_REGION}\n  access_key: ${ACCESS_KEY_ID}\n  secret_key: ${SECRET_ACCESS_KEY}\n  endpoint: ${S3_BUCKET_ENDPOINT}",
            )
            ∷ [])
      ⊕ done;
}

unfoldable pub local_thanos_object_store : (secret_name namespace : String) → Object
local_thanos_object_store secret_name namespace = record {
  api_version = "v1";
  kind = "Secret";
  name = secret_name;
  namespace = namespace;
  labels = ("app.kubernetes.io/name", secret_name) ∷ [];
  annotations = [];
  body =
      "Type" := constant "corev1.SecretTypeOpaque"
      ⊕ "StringData"
        := string_map (
            (
              "thanos.yaml",
              "type: S3\nconfig:\n  bucket: thanos\n  region: us-east-1\n  access_key: minio\n  secret_key: minio123\n  endpoint: minio.observatorium-minio.svc:9000\n  insecure: true",
            )
            ∷ [])
      ⊕ done;
}

-- The parameters of both templates.
abbrev pub secret_params : List Fields
secret_params =
    ("Name" := text "S3_BUCKET_NAME" ⊕ done)
    ∷ ("Name" := text "S3_BUCKET_REGION" ⊕ done)
    ∷ ("Name" := text "S3_BUCKET_ENDPOINT" ⊕ done)
    ∷ ("Name" := text "ACCESS_KEY_ID" ⊕ done)
    ∷ ("Name" := text "SECRET_ACCESS_KEY" ⊕ done)
    ∷ []

unfoldable pub stage_secrets : List File
unfolding thanos_object_store_secret
stage_secrets =
    record {
      dir = generator "staging" "objstore";
      name = "thanos-telemeter-secret.yaml";
      contents =
          template "thanos-telemeter-secret"
            (thanos_object_store_secret "thanos-objectstorage" stage_namespace ∷ []) secret_params;
    }
    ∷ record {
      dir = generator "staging" "objstore";
      name = "thanos-default-secret.yaml";
      contents =
          template "thanos-default-secret"
            (thanos_object_store_secret "observatorium-mst-thanos-objectstorage" stage_namespace
              ∷ [])
            secret_params;
    }
    ∷ []

unfoldable pub local_secrets : List File
unfolding local_thanos_object_store
local_secrets =
    record {
      dir = generator "local" "objstore";
      name = "thanos-telemeter-secret.yaml";
      contents = documents (local_thanos_object_store "thanos-objectstorage" local_namespace ∷ []);
    }
    ∷ record {
      dir = generator "local" "objstore";
      name = "thanos-default-secret.yaml";
      contents =
          documents (
            local_thanos_object_store "observatorium-mst-thanos-objectstorage" local_namespace
            ∷ []);
    }
    ∷ []
