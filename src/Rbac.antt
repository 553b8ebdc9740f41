-- ===== src/Rbac.antt =====
-- configuration/observatorium/rbac.go: the roles and role bindings of the Observatorium API.
-- `rbac.Role`, `rbac.RoleBinding` and `rbac.Subject` are the literals that the file builds.
pub mod Keys
pub mod Calls
pub mod Attach
pub mod Spec
pub mod Grants
pub mod Generate
mod Tests
use rhobs.Base.{String, ◌<>◌, Bool, true, false, not, ◌&&◌, none, some, List, [], ◌∷◌, ◌++◌}
use rhobs.Base.{◌≡◌, ◌↔◌, arith, Comparable, ◌==◌, text_comparable, any, if◌then◌else◌}
use rhobs.Base.Dict.{Dict, lookup, insert}
use rhobs.Base.Text.{has_suffix, trim_suffix, trim_right}
use rhobs.Base.Outcome.{Outcome, ok, panic, ◌>>=◌}

-- `type tenantID string`, `type signal string`, `type env string`, and the API's `rbac.Permission`
abbrev pub TenantId : Type 0
TenantId = String

abbrev pub Signal : Type 0
Signal = String

abbrev pub Env : Type 0
Env = String

abbrev pub Permission : Type 0
Permission = String

abbrev pub metrics_signal : Signal
metrics_signal = "metrics"

abbrev pub testing_env : Env
testing_env = "testing"

abbrev pub staging_env : Env
staging_env = "staging"

abbrev pub production_env : Env
production_env = "production"

pub record Role : Type 0 where
  pub name : String
  pub permissions : List Permission
  pub resources : List String
  pub tenants : List String

pub data Kind : Type 0 where
  user group : Kind

pub record Subject : Type 0 where
  pub name : String
  pub kind : Kind

pub record RoleBinding : Type 0 where
  pub name : String
  pub roles : List String
  pub subjects : List Subject

pub record RoleMapKey : Type 0 where
  pub tenant : TenantId
  pub signal : Signal
  pub perm : Permission

pub record ObservatoriumRbac : Type 0 where
  pub mapped_role_names : Dict RoleMapKey String
  pub roles : List Role
  pub role_bindings : List RoleBinding

pub record BindingOpts : Type 0 where
  pub name : String
  pub tenant : TenantId
  pub signals : List Signal
  pub perms : List Permission
  pub envs : List Env
  pub skip_convention_check : Bool

abbrev pub same_key : RoleMapKey → RoleMapKey → Bool
same_key j k = j.tenant == k.tenant && (j.signal == k.signal && j.perm == k.perm)

-- `k.tenant` is compared first, as Go compares the fields of a struct key.
pub same_key_iff : (j k : RoleMapKey) → (same_key j k ≡ true) ↔ (j ≡ k)
same_key_iff j k = ground (
  arith,
  text_comparable.equal_iff j.tenant k.tenant,
  text_comparable.equal_iff j.signal k.signal,
  text_comparable.equal_iff j.perm k.perm,
)

instance abbrev pub key_comparable : Comparable RoleMapKey
key_comparable = record { equal = same_key; equal_iff = same_key_iff }

-- `fmt.Sprintf("%s-%s-%s", k.tenant, k.signal, k.perm)`
unfoldable pub role_name : RoleMapKey → String
role_name k = k.tenant <> ("-" <> (k.signal <> ("-" <> k.perm)))

unfoldable pub role_of : RoleMapKey → Role
unfolding role_name
role_of k = record {
  name = role_name k;
  permissions = k.perm ∷ [];
  resources = k.signal ∷ [];
  tenants = k.tenant ∷ [];
}

unfoldable pub get_or_create_role_name :
    ObservatoriumRbac → TenantId → Signal → Permission → String × ObservatoriumRbac
unfolding role_of
get_or_create_role_name o tenant s p =
    let k : RoleMapKey = record { tenant = tenant; signal = s; perm = p } in
    elim (lookup k o.mapped_role_names) [
      | some n ↦ (n, o)
      | none ↦ (
        role_name k,
        record o {
          mapped_role_names = insert k (role_name k) o.mapped_role_names;
          roles = o.roles ++ (role_of k ∷ []);
        },
      )
    ]

-- The loop over the suffixes of `tenantNameFollowsConvention`.
convention_loop : String → List Env → String × Bool
convention_loop name [] = ("", true)
convention_loop name (e ∷ envs) =
    if has_suffix name e
    then (
      "found name breaking conventions with environment suffix: "
          <> (name <> (", should be: " <> trim_right (trim_suffix name e) "-")),
      false,
    )
    else convention_loop name envs

unfoldable pub tenant_name_follows_convention : String → String × Bool
unfolding convention_loop has_suffix trim_suffix trim_right
tenant_name_follows_convention name =
    convention_loop name (staging_env ∷ production_env ∷ testing_env ∷ [])

-- The inner loop of `attachBinding` over the permissions, and the outer one over the signals.
unfoldable pub roles_for_perms :
    ObservatoriumRbac → TenantId → Signal → List Permission → List String × ObservatoriumRbac
unfolding get_or_create_role_name
roles_for_perms o tenant s [] = ([], o)
roles_for_perms o tenant s (p ∷ perms) =
    let (n, o') = get_or_create_role_name o tenant s p in
    let (ns, o'') = roles_for_perms o' tenant s perms in (n ∷ ns, o'')

unfoldable pub roles_for_signals :
    ObservatoriumRbac → TenantId → List Signal → List Permission → List String × ObservatoriumRbac
unfolding roles_for_perms
roles_for_signals o tenant [] perms = ([], o)
roles_for_signals o tenant (s ∷ signals) perms =
    let (ns, o') = roles_for_perms o tenant s perms in
    let (ms, o'') = roles_for_signals o' tenant signals perms in (ns ++ ms, o'')

unfoldable pub subject_name : String → Env → String
subject_name name e =
    if e == production_env
    then "service-account-" <> name
    else "service-account-" <> (name <> ("-" <> e))

-- The loop of `attachBinding` over the environments.
unfoldable pub subjects_for_envs : String → Bool → List Env → Outcome (List Subject)
unfolding tenant_name_follows_convention subject_name
subjects_for_envs name skip [] = ok []
subjects_for_envs name skip (e ∷ envs) =
    let (err_msg, follows) = tenant_name_follows_convention name in
    let rest = subjects_for_envs name skip envs in
    if not follows && not skip
    then panic err_msg
    else do subs ← rest; ok (record { name = subject_name name e; kind = user } ∷ subs)

-- A panic carries the first argument of `mimic.Panicf`; the configuration is lost with it.
unfoldable pub attach_binding : ObservatoriumRbac → BindingOpts → Outcome ObservatoriumRbac
unfolding roles_for_signals subjects_for_envs
attach_binding o opts =
    if any (λ b. b.name == opts.name) o.role_bindings
    then panic "found duplicate binding name"
    else let (roles, o') = roles_for_signals o opts.tenant opts.signals opts.perms in
      do
        subs ← subjects_for_envs opts.name opts.skip_convention_check opts.envs
        ok (record o' {
          role_bindings =
              o'.role_bindings
              ++ (record { name = opts.name; roles = roles; subjects = subs } ∷ []);
        })
