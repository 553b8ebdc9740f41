-- ===== src/Rbac/Spec.antt =====
-- What the generated configuration promises: which subject may do what. The API looks the roles of
-- a binding up by their names, so this is stated on the names, as the configuration is written.
use rhobs.Base.{
  String, ◌≡◌, ◌↔◌, Bool, true, false, not, ◌&&◌, List, arith, Comparable, ◌==◌, text_comparable,
  any, contains,
}
use rhobs.Base.Text.{contains_char}
use rhobs.Rbac.{Role, RoleBinding, Subject, Kind, user, group, RoleMapKey, ObservatoriumRbac}

abbrev same_kind : Kind → Kind → Bool
same_kind user user = true
same_kind group group = true
same_kind user group = false
same_kind group user = false

abbrev pub same_subject : Subject → Subject → Bool
same_subject s t = s.name == t.name && same_kind s.kind t.kind

pub same_subject_iff : (s t : Subject) → (same_subject s t ≡ true) ↔ (s ≡ t)
same_subject_iff s t = ground (arith, text_comparable.equal_iff s.name t.name)

instance abbrev pub subject_comparable : Comparable Subject
subject_comparable = record { equal = same_subject; equal_iff = same_subject_iff }

-- A role allows a permission for a signal of a tenant.
abbrev pub role_allows : Role → RoleMapKey → Bool
role_allows r k =
    contains r.tenants k.tenant && (contains r.resources k.signal && contains r.permissions k.perm)

-- Any role of that name counts.
unfoldable pub name_allows : List Role → String → RoleMapKey → Bool
name_allows roles n k = any (λ r. r.name == n && role_allows r k) roles

unfoldable pub binding_allows : List Role → RoleBinding → Subject → RoleMapKey → Bool
binding_allows roles b s k = contains b.subjects s && any (λ n. name_allows roles n k) b.roles

unfoldable pub permits : ObservatoriumRbac → Subject → RoleMapKey → Bool
permits o s k = any (λ b. binding_allows o.roles b s k) o.role_bindings

-- The signal and the permission have no dash, so that a role's name can be cut in one way.
unfoldable pub plain_key : RoleMapKey → Bool
plain_key k = not (contains_char k.signal "-") && not (contains_char k.perm "-")
