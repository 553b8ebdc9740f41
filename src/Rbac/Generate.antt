-- ===== src/Rbac/Generate.antt =====
-- `GenerateRBAC`: the bindings of all tenants, in the order of the calls. What the API's package
-- calls `rbac.Write` and `rbac.Read` is a parameter.
pub mod Run
pub mod Permits
pub mod Writers
use rhobs.Base.{String, Bool, true, false, List, [], ◌∷◌, ◌++◌}
use rhobs.Base.Outcome.{Outcome, ok, ◌>>=◌}
use rhobs.Rbac.{
  TenantId, Env, metrics_signal, testing_env, staging_env, production_env, Permission, RoleBinding,
  Subject, group, ObservatoriumRbac, BindingOpts, get_or_create_role_name, attach_binding,
}

abbrev pub cnvqe_tenant : TenantId
cnvqe_tenant = "cnvqe"

abbrev pub telemeter_tenant : TenantId
telemeter_tenant = "telemeter"

abbrev pub rhobs_tenant : TenantId
rhobs_tenant = "rhobs"

abbrev pub psiocp_tenant : TenantId
psiocp_tenant = "psiocp"

abbrev pub rhods_tenant : TenantId
rhods_tenant = "rhods"

abbrev pub rhacs_tenant : TenantId
rhacs_tenant = "rhacs"

abbrev pub odfms_tenant : TenantId
odfms_tenant = "odfms"

abbrev pub ref_addon_tenant : TenantId
ref_addon_tenant = "reference-addon"

abbrev pub rhtap_tenant : TenantId
rhtap_tenant = "rhtap"

abbrev pub rhel_tenant : TenantId
rhel_tenant = "rhel"

abbrev pub empty : ObservatoriumRbac
empty = record { mapped_role_names = []; roles = []; role_bindings = [] }

-- All calls are for the one signal.
abbrev opts : String → TenantId → List Permission → List Env → Bool → BindingOpts
opts name tenant perms envs skip = record {
  name = name;
  tenant = tenant;
  signals = metrics_signal ∷ [];
  perms = perms;
  envs = envs;
  skip_convention_check = skip;
}

-- One `attachBinding` call after another.
unfoldable pub attach_all : ObservatoriumRbac → List BindingOpts → Outcome ObservatoriumRbac
unfolding attach_binding
attach_all o [] = ok o
attach_all o (b ∷ bs) = do o' ← attach_binding o b; attach_all o' bs

abbrev pub team_monitoring : Subject
team_monitoring = record { name = "team-monitoring@redhat.com"; kind = group }

-- "Special admin role.": this binding is appended without `attachBinding`.
unfoldable pub append_admin : Permission → ObservatoriumRbac → ObservatoriumRbac
unfolding get_or_create_role_name
append_admin read o =
    let (telemeter_read, o') = get_or_create_role_name o telemeter_tenant metrics_signal read in
    let (rhobs_read, o'') = get_or_create_role_name o' rhobs_tenant metrics_signal read in
    record o'' {
      role_bindings =
          o.role_bindings
          ++ (record {
            name = "rhobs-admin";
            roles = telemeter_read ∷ rhobs_read ∷ [];
            subjects = team_monitoring ∷ [];
          }
              ∷ []);
    }

module _ (write read : Permission) where
  abbrev pub before_admin : List BindingOpts
  before_admin =
      opts "observatorium-cnv-qe" cnvqe_tenant (write ∷ read ∷ [])
        (staging_env ∷ production_env ∷ []) false
      ∷ opts "observatorium-starburst-isv-write" rhods_tenant (write ∷ []) (staging_env ∷ []) false
      ∷ opts "observatorium-starburst-isv-read" rhods_tenant (read ∷ []) (staging_env ∷ []) false
      ∷ opts "observatorium-rhacs-metrics" rhacs_tenant (write ∷ read ∷ [])
          (staging_env ∷ production_env ∷ []) false
      ∷ opts "observatorium-rhacs-grafana" rhacs_tenant (read ∷ [])
          (staging_env ∷ production_env ∷ []) false
      ∷ opts "observatorium-rhobs" rhobs_tenant (write ∷ read ∷ [])
          (testing_env ∷ staging_env ∷ production_env ∷ []) false
      ∷ opts "observatorium-rhobs-mst" rhobs_tenant (write ∷ read ∷ [])
          (staging_env ∷ production_env ∷ []) false
      ∷ []

  abbrev pub after_admin : List BindingOpts
  after_admin =
      opts "telemeter-service" telemeter_tenant (write ∷ read ∷ [])
        (staging_env ∷ production_env ∷ []) false
      ∷ opts "observatorium-ccx-processing" telemeter_tenant (read ∷ [])
          (staging_env ∷ production_env ∷ []) false
      ∷ opts "observatorium-sdtcs" telemeter_tenant (read ∷ []) (staging_env ∷ production_env ∷ [])
          false
      ∷ opts "observatorium-subwatch" telemeter_tenant (read ∷ [])
          (staging_env ∷ production_env ∷ []) false
      ∷ opts "observatorium-psiocp" psiocp_tenant (write ∷ read ∷ []) (staging_env ∷ []) false
      ∷ opts "observatorium-odfms-write" odfms_tenant (write ∷ []) (production_env ∷ []) false
      ∷ opts "observatorium-odfms-read" odfms_tenant (read ∷ []) (production_env ∷ []) false
      ∷ opts "observatorium-odfms" odfms_tenant (read ∷ write ∷ []) (staging_env ∷ []) false
      ∷ opts "observatorium-reference-addon" ref_addon_tenant (write ∷ read ∷ [])
          (staging_env ∷ production_env ∷ []) false
      ∷ opts "7f7f912e-0429-4639-8e70-609ecf65b280" telemeter_tenant (read ∷ [])
          (production_env ∷ []) true
      ∷ opts "8f7aa5e1-aa08-493d-82eb-cf24834fc08f" telemeter_tenant (read ∷ [])
          (production_env ∷ []) true
      ∷ opts "observatorium-rhtap" rhtap_tenant (read ∷ write ∷ [])
          (staging_env ∷ production_env ∷ []) false
      ∷ opts "observatorium-rhel-read" rhel_tenant (read ∷ []) (staging_env ∷ production_env ∷ [])
          false
      ∷ opts "observatorium-rhel-write" rhel_tenant (write ∷ []) (staging_env ∷ production_env ∷ [])
          false
      ∷ []

  unfoldable pub generate_rbac : Outcome ObservatoriumRbac
  unfolding attach_all append_admin
  generate_rbac = do o ← attach_all empty before_admin; attach_all (append_admin read o) after_admin
