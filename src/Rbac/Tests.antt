-- ===== src/Rbac/Tests.antt =====
-- Runs of rbac.go on concrete options, and the theorems at them.
use Prim.Native.String.{String}
use rhobs.Base.{◌≡◌, ◌≢◌, ◌↔◌, refl, true, false, ◌&&◌, ◌||◌, [], ◌∷◌, arith}
use rhobs.Base.{text_comparable, contains}
use rhobs.Base.Dict.{lookup, insert}
use rhobs.Base.Text.{contains_char}
use rhobs.Base.Outcome.{ok, panic}
use rhobs.Rbac.{
  Subject, user, RoleMapKey, key_comparable, ObservatoriumRbac, BindingOpts, metrics_signal,
  staging_env, production_env, attach_binding, tenant_name_follows_convention, role_of, role_name,
  subject_name,
}
use rhobs.Rbac.Keys.{represent, key, keys_of}
use rhobs.Rbac.Attach.{IsConsistent, Accepts, attach-IsConsistent, attach_returns_iff}
use rhobs.Rbac.Calls.{binding_of, opts_keys, opts_subjects}
use rhobs.Rbac.Spec.{permits, name_allows, binding_allows, plain_key, subject_comparable}
use rhobs.Rbac.Grants.{attach-permits}
use rhobs.Rbac.Generate.{empty, generate_rbac, telemeter_tenant}
use rhobs.Rbac.Generate.Permits.{empty-IsUnambiguous, listed, generate_rbac-permits}
use rhobs.Rbac.Generate.Writers.{telemeter_writers, telemeter_writers_only}

abbrev sample : BindingOpts
sample = record {
  name = "telemeter-service";
  tenant = telemeter_tenant;
  signals = metrics_signal ∷ [];
  perms = "write" ∷ "read" ∷ [];
  envs = staging_env ∷ production_env ∷ [];
  skip_convention_check = false;
}

abbrev with_sample : ObservatoriumRbac
with_sample =
    represent (key "telemeter" "metrics" "write" ∷ key "telemeter" "metrics" "read" ∷ [])
      (binding_of sample ∷ [])

attach_sample : attach_binding empty sample ≡ ok with_sample
unfolding attach_binding keys_of lookup insert
attach_sample = refl

attach_again : attach_binding with_sample sample ≡ panic "found duplicate binding name"
unfolding attach_binding
attach_again = refl

bad_name : tenant_name_follows_convention "observatorium-rhobs-staging" ≡ (
  "found name breaking conventions with environment suffix: observatorium-rhobs-staging, should be: observatorium-rhobs",
  false,
)
unfolding tenant_name_follows_convention
bad_name = refl

abbrev service : Subject
service = record { name = "service-account-telemeter-service"; kind = user }

permits_tests :
    (permits with_sample service (key "telemeter" "metrics" "read") ≡ true)
    × (permits with_sample service (key "rhobs" "metrics" "read") ≡ false)
unfolding permits name_allows binding_allows keys_of role_of role_name subject_name
permits_tests = (refl, refl)

attach-IsConsistent_example : IsConsistent with_sample
attach-IsConsistent_example =
    attach-IsConsistent sample empty-IsUnambiguous.consistent attach_sample

attach_returns_iff_example :
    ((o' : ObservatoriumRbac) × (attach_binding empty sample ≡ ok o')) ↔ Accepts empty sample
attach_returns_iff_example = attach_returns_iff empty sample empty-IsUnambiguous.consistent

attach-permits_example : permits with_sample service (key "telemeter" "metrics" "read") ≡ (
    permits empty service (key "telemeter" "metrics" "read")
    || (contains (opts_subjects sample) service
        && contains (opts_keys sample) (key "telemeter" "metrics" "read")))
attach-permits_example =
    attach-permits sample service (key "telemeter" "metrics" "read") empty-IsUnambiguous
      (unfold plain_key contains_char keys_of in refl) attach_sample

generate_rbac-permits_example :
    (o : ObservatoriumRbac) × (generate_rbac "write" "read" ≡ ok o)
    × IsConsistent o
    × ((s : Subject) (r : RoleMapKey) → permits o s r ≡ listed "write" "read" s r)
generate_rbac-permits_example =
    generate_rbac-permits "write" "read" (unfold contains_char in refl)
      (unfold contains_char in refl)

-- The configuration, as it is generated.
generated_run :
    (o : ObservatoriumRbac) × (generate_rbac "write" "read" ≡ ok o)
    × IsConsistent o
    × ((s : Subject) (r : RoleMapKey) → permits o s r ≡ listed "write" "read" s r)
generated_run =
    generate_rbac-permits "write" "read" (unfold contains_char in refl)
      (unfold contains_char in refl)

write_ne_read : ◌≢◌ {A = String} "write" "read"
write_ne_read = ground (arith, text_comparable.equal_iff "write" "read")

telemeter_writers_only_example :
    permits generated_run.0 service (key "telemeter" "metrics" "write")
    ≡ contains telemeter_writers service
telemeter_writers_only_example =
    telemeter_writers_only "write" "read" write_ne_read generated_run.0 service
      (unfold contains_char in refl) (unfold contains_char in refl) generated_run.1
