-- ===== src/Mage/Operator/Tests.antt =====
-- The theorems on the operator's resources at concrete inputs.
use rhobs.Base.{ℕ, suc, String, ◌≡◌, ◌⊎◌, inl, inr, List, [], ◌∷◌, All, length, text_comparable}
use rhobs.Base.Outcome.{ok}
use rhobs.Base.Outcome.Runs.{Runs}
use rhobs.Mage.Value.{Object, done}
use rhobs.Mage.Operator.Rules.{Separates, people, people-allowed}
use rhobs.Mage.OperatorCr.{template, documents}
use rhobs.Mage.Operator.Crds.{
  crd_ref_stage, Response, Fallible, components, crds, stage_crds, local_crds,
}
use rhobs.Mage.Operator.Fetched.{AllFetched, OneMissed, crds-ends}
use rhobs.Mage.Operator.Written.{crds_files-written}

people-allowed_example :
    All (Separates "rhobs-stage" "monitoring.thanos.io" "thanosqueries" "get") people
people-allowed_example = people-allowed "rhobs-stage" "monitoring.thanos.io" "thanosqueries" "get"

-- A server that answers every request; the world counts the responses that were closed.
abbrev get : String → ℕ → Fallible Response × ℕ
get url n = (inr (record { status_code = 200; status = "200 OK"; body = url }), n)

abbrev close : Response → ℕ → ℕ
close resp n = suc n

abbrev decode : String → Fallible Object
decode body = inr (record {
  api_version = "apiextensions.k8s.io/v1";
  kind = "CustomResourceDefinition";
  name = body;
  namespace = "";
  labels = [];
  annotations = [];
  body = done;
})

crds-ends_example :
    ((objs : List Object) × (after : ℕ) × (crds get close decode "main" 0 ≡ (inr objs, after))
      × (length objs ≡ 5)
      × AllFetched get close decode "main" components 0 objs after)
    ⊎ ((e : String) × (after : ℕ) × (crds get close decode "main" 0 ≡ (inl e, after))
        × OneMissed get close decode "main" components 0 e after)
crds-ends_example = crds-ends get close decode "main" 0

crds_files-written_example :
    ((objs : List Object) × (after : ℕ) × AllFetched get close decode crd_ref_stage components 0
        objs after
      × (stage_crds get close decode 0 ≡ (
        inr (record {
          dir = "resources" ∷ "services" ∷ "bundle" ∷ "staging" ∷ [];
          name = "thanos-operator-crds.yaml";
          contents = template "thanos-operator-crds" objs [];
        }),
        after,
      ))
      × (local_crds get close decode 0 ≡ (
        ok (
            inr (record {
              dir = "resources" ∷ "services" ∷ "bundle" ∷ "local" ∷ [];
              name = "thanos-operator-crds.yaml";
              contents = documents objs;
            })),
        after,
      )))
    ⊎ ((e : String) × (after : ℕ) × OneMissed get close decode crd_ref_stage components 0 e after
        × (stage_crds get close decode 0 ≡ (inl e, after))
        × (local_crds get close decode 0 ≡ (ok (inl e), after)))
crds_files-written_example = crds_files-written get close decode 0
