-- ===== src/Rbac/Calls.antt =====
-- One call of `attachBinding`, on a configuration that is given by its keys and bindings.
use text.Mathlib.TextBridge.{IsSuffix}
use rhobs.Base.{String, ◌≡◌, refl, Bool, true, false, ◌||◌, List, [], ◌∷◌, ◌++◌, map, arith}
use rhobs.Base.{◌==◌, text_comparable, any, contains, if◌then◌else◌}
use rhobs.Base.Text.Suffix.{has_suffix_iff}
use rhobs.Base.Text.{has_suffix}
use rhobs.Base.Outcome.{ok, panic}
use rhobs.Rbac.{
  Env, staging_env, production_env, testing_env, RoleMapKey, RoleBinding, Subject, user,
  BindingOpts, key_comparable, role_name, subject_name, tenant_name_follows_convention,
  subjects_for_envs, attach_binding,
}
use rhobs.Rbac.Keys.{represent, add_keys, keys_of, roles_for_signals-represent}

abbrev pub known_envs : List Env
known_envs = staging_env ∷ production_env ∷ testing_env ∷ []

-- No environment's name ends the name.
abbrev pub FollowsConvention : String → Type 0
FollowsConvention name = (e : Env) → contains known_envs e ≡ true → ¬ IsSuffix e name

pub follows_sound :
    (name : String) → (tenant_name_follows_convention name).1 ≡ true → FollowsConvention name
unfolding tenant_name_follows_convention
follows_sound name h e m s = ground (
  arith,
  (has_suffix_iff name e).1 s,
  text_comparable.equal_iff staging_env e,
  text_comparable.equal_iff production_env e,
  text_comparable.equal_iff testing_env e,
)

pub follows_complete :
    (name : String) → FollowsConvention name → (tenant_name_follows_convention name).1 ≡ true
unfolding tenant_name_follows_convention
follows_complete name h = ground (
  arith,
  λ (p : has_suffix name staging_env ≡ true). h staging_env refl ((has_suffix_iff name _).0 p),
  λ (p : has_suffix name production_env ≡ true).
      h production_env refl ((has_suffix_iff name _).0 p),
  λ (p : has_suffix name testing_env ≡ true). h testing_env refl ((has_suffix_iff name _).0 p),
)

abbrev pub is_empty : List Env → Bool
is_empty [] = true
is_empty (e ∷ envs) = false

unfoldable pub conforms : BindingOpts → Bool
conforms opts =
    is_empty opts.envs
    || (opts.skip_convention_check || (tenant_name_follows_convention opts.name).1)

abbrev pub subject_of : String → Env → Subject
subject_of name e = record { name = subject_name name e; kind = user }

subjects_for_envs-eq :
    (name : String) (skip : Bool) (envs : List Env)
    → subjects_for_envs name skip envs ≡ (
        if is_empty envs || (skip || (tenant_name_follows_convention name).1)
        then ok (map (subject_of name) envs)
        else panic (tenant_name_follows_convention name).0)
unfolding subjects_for_envs
subjects_for_envs-eq name skip [] = refl
subjects_for_envs-eq name skip (e ∷ []) = ground arith
subjects_for_envs-eq name skip (e ∷ (f ∷ envs)) =
    ground (arith, subjects_for_envs-eq name skip (f ∷ envs))

abbrev pub opts_keys : BindingOpts → List RoleMapKey
opts_keys opts = keys_of opts.tenant opts.signals opts.perms

-- A binding to the roles of the keys.
abbrev pub bind : String → List RoleMapKey → List Subject → RoleBinding
bind name l subs = record { name = name; roles = map role_name l; subjects = subs }

abbrev pub opts_subjects : BindingOpts → List Subject
opts_subjects opts = map (subject_of opts.name) opts.envs

abbrev pub binding_of : BindingOpts → RoleBinding
binding_of opts = bind opts.name (opts_keys opts) (opts_subjects opts)

abbrev pub taken : List RoleBinding → String → Bool
taken bs name = any (λ b. b.name == name) bs

pub attach-represent :
    (ks : List RoleMapKey) (bs : List RoleBinding) (opts : BindingOpts)
    → attach_binding (represent ks bs) opts ≡ (
        if taken bs opts.name
        then panic "found duplicate binding name"
        else if conforms opts
        then ok (represent (add_keys ks (opts_keys opts)) (bs ++ (binding_of opts ∷ [])))
        else panic (tenant_name_follows_convention opts.name).0)
unfolding attach_binding conforms
attach-represent ks bs opts = ground (
  arith,
  roles_for_signals-represent ks bs opts.tenant opts.signals opts.perms,
  subjects_for_envs-eq opts.name opts.skip_convention_check opts.envs,
)
