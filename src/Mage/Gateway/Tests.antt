-- ===== src/Mage/Gateway/Tests.antt =====
-- The theorems on the gateway at concrete inputs.
use rhobs.Base.{String, ◌≡◌, refl, ◌∙◌, true, ◌⊎◌, inr, List, [], contains, text_comparable}
use rhobs.Base.Dict.{lookup}
use rhobs.Base.Text.{contains_char}
use rhobs.Base.Outcome.{ok}
use rhobs.Base.Outcome.Runs.{returned}
use rhobs.Rbac.{ObservatoriumRbac, Subject, user, RoleMapKey, subject_name}
use rhobs.Rbac.Attach.{IsConsistent}
use rhobs.Rbac.Keys.{key, keys_of}
use rhobs.Rbac.Spec.{permits}
use rhobs.Rbac.Generate.{generate_rbac}
use rhobs.Rbac.Generate.Permits.{listed, generate_rbac-permits}
use rhobs.Mage.Params.Resources.{stage_maps}
use rhobs.Mage.Heap.{Heap}
use rhobs.Mage.OperatorCr.{File, stage_namespace}
use rhobs.Mage.Gateway.Target.{gateway_files}
use rhobs.Mage.Gateway.Written.{gateway_files-Generated}
use rhobs.Mage.Gateway.Selected.{Ends, gateway-Ends}
use rhobs.Mage.Gateway.Placeholders.{IsDeclared, gateway_files-IsDeclared}
use rhobs.Mage.Gateway.Tenants.{tenant_names, tenants-permitted}

abbrev no_maps : Heap
no_maps = record { fresh = 0; maps = [] }

abbrev marshal : ObservatoriumRbac → String ⊎ String
marshal o = inr "{}"

abbrev convert : String → String ⊎ String
convert b = inr b

gateway-Ends_example :
    (o : ObservatoriumRbac) × (generate_rbac "write" "read" ≡ ok o)
    × ((s : Subject) (r : RoleMapKey) → permits o s r ≡ listed "write" "read" s r)
    × Ends marshal convert "write" "read" stage_maps no_maps o
gateway-Ends_example =
    gateway-Ends marshal convert "write" "read" stage_maps no_maps (unfold contains_char in refl)
      (unfold contains_char in refl)

stage_run : (fs : List File) × (gateway_files stage_maps stage_namespace "{}" no_maps ≡ ok fs)
unfolding lookup
stage_run =
    returned (gateway_files stage_maps stage_namespace "{}" no_maps)
      (gateway_files-Generated stage_maps no_maps stage_namespace "{}").returns

gateway_files-IsDeclared_example : IsDeclared stage_run.0
gateway_files-IsDeclared_example =
    gateway_files-IsDeclared stage_maps no_maps "{}" stage_run.0 stage_run.1

abbrev service : Subject
service = record { name = "service-account-telemeter-service"; kind = user }

generated_rbac :
    (o : ObservatoriumRbac) × (generate_rbac "write" "read" ≡ ok o)
    × IsConsistent o
    × ((s : Subject) (r : RoleMapKey) → permits o s r ≡ listed "write" "read" s r)
generated_rbac =
    generate_rbac-permits "write" "read" (unfold contains_char in refl)
      (unfold contains_char in refl)

service_permitted : permits generated_rbac.0 service (key "telemeter" "metrics" "write") ≡ true
unfolding keys_of subject_name
service_permitted = generated_rbac.3 service (key "telemeter" "metrics" "write") ∙ refl

tenants-permitted_example : contains tenant_names "telemeter" ≡ true
tenants-permitted_example =
    tenants-permitted "write" "read" generated_rbac.0 service (key "telemeter" "metrics" "write")
      (unfold contains_char in refl) (unfold contains_char in refl) generated_rbac.1
      service_permitted
