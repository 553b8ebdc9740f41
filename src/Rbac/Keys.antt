-- ===== src/Rbac/Keys.antt =====
-- The configuration as it is reached by the operations of rbac.go: a list of role keys without
-- repetition, from which `mappedRoleNames` and `Roles` are both read off, and the bindings.
use mathlib.Core.List.{map-append}
use rhobs.Base.{◌≡◌, refl, Bool, true, false, ◌||◌, none, some, List, [], ◌∷◌, ◌++◌, map, arith}
use rhobs.Base.{
  any, any-append, any_of_contains, All, ==_refl, text_comparable, ◌==◌, contains, distinct,
  distinct-concat, contains-append, if◌then◌else◌,
}
use rhobs.Base.Dict.{lookup, insert}
use rhobs.Rbac.{
  TenantId, Signal, Permission, RoleMapKey, RoleBinding, ObservatoriumRbac, key_comparable,
  role_name, role_of, get_or_create_role_name, roles_for_perms, roles_for_signals,
}

abbrev pub represent : List RoleMapKey → List RoleBinding → ObservatoriumRbac
represent ks bs = record {
  mapped_role_names = map (λ k. (k, role_name k)) ks;
  roles = map role_of ks;
  role_bindings = bs;
}

unfoldable pub add_key : List RoleMapKey → RoleMapKey → List RoleMapKey
add_key ks k = if contains ks k then ks else ks ++ (k ∷ [])

unfoldable pub add_keys : List RoleMapKey → List RoleMapKey → List RoleMapKey
unfolding add_key
add_keys ks [] = ks
add_keys ks (k ∷ l) = add_keys (add_key ks k) l

abbrev pub key : TenantId → Signal → Permission → RoleMapKey
key tenant s p = record { tenant = tenant; signal = s; perm = p }

-- Every pair of a signal and a permission, in the order of the loops.
unfoldable pub keys_of : TenantId → List Signal → List Permission → List RoleMapKey
keys_of tenant [] perms = []
keys_of tenant (s ∷ signals) perms = map (key tenant s) perms ++ keys_of tenant signals perms

lookup-names :
    (k : RoleMapKey) (ks : List RoleMapKey)
    → lookup k (map (λ j. (j, role_name j)) ks)
      ≡ (if contains ks k then some (role_name k) else none)
unfolding lookup
lookup-names k [] = refl
lookup-names k (j ∷ ks) = ground (arith, lookup-names k ks, key_comparable.equal_iff j k)

insert-names :
    (k : RoleMapKey) (ks : List RoleMapKey)
    → contains ks k ≡ false
    → insert k (role_name k) (map (λ j. (j, role_name j)) ks)
      ≡ map (λ j. (j, role_name j)) (ks ++ (k ∷ []))
unfolding insert
insert-names k [] h = refl
insert-names k (j ∷ ks) h = ground (arith, insert-names k ks)

pub get_or_create-represent :
    (ks : List RoleMapKey) (bs : List RoleBinding) (k : RoleMapKey)
    → get_or_create_role_name (represent ks bs) k.tenant k.signal k.perm
      ≡ (role_name k, represent (add_key ks k) bs)
unfolding get_or_create_role_name add_key
get_or_create-represent ks bs k =
    ground (arith, lookup-names k ks, insert-names k ks, map-append role_of ks (k ∷ []))

pub roles_for_perms-represent :
    (ks : List RoleMapKey) (bs : List RoleBinding) (tenant : TenantId) (s : Signal)
    (perms : List Permission)
    → roles_for_perms (represent ks bs) tenant s perms ≡ (
      map role_name (map (key tenant s) perms),
      represent (add_keys ks (map (key tenant s) perms)) bs,
    )
unfolding roles_for_perms add_keys
roles_for_perms-represent ks bs tenant s [] = refl
roles_for_perms-represent ks bs tenant s (p ∷ perms) = rw (
  get_or_create-represent ks bs (key tenant s p),
  roles_for_perms-represent (add_key ks (key tenant s p)) bs tenant s perms,
)

add_keys-append : (ks l m : List RoleMapKey) → add_keys ks (l ++ m) ≡ add_keys (add_keys ks l) m
unfolding add_keys
add_keys-append ks [] m = refl
add_keys-append ks (k ∷ l) m = add_keys-append (add_key ks k) l m

pub roles_for_signals-represent :
    (ks : List RoleMapKey) (bs : List RoleBinding) (tenant : TenantId) (signals : List Signal)
    (perms : List Permission)
    → roles_for_signals (represent ks bs) tenant signals perms ≡ (
      map role_name (keys_of tenant signals perms),
      represent (add_keys ks (keys_of tenant signals perms)) bs,
    )
unfolding roles_for_signals keys_of add_keys
roles_for_signals-represent ks bs tenant [] perms = refl
roles_for_signals-represent ks bs tenant (s ∷ signals) perms = rw (
  roles_for_perms-represent ks bs tenant s perms,
  roles_for_signals-represent (add_keys ks (map (key tenant s) perms)) bs tenant signals perms,
  map-append role_name (map (key tenant s) perms) (keys_of tenant signals perms),
  add_keys-append ks (map (key tenant s) perms) (keys_of tenant signals perms),
)

-- What `add_keys` holds, and that it holds nothing twice.
contains-add_key :
    (ks : List RoleMapKey) (k j : RoleMapKey)
    → contains (add_key ks k) j ≡ (contains ks j || k == j)
unfolding add_key
contains-add_key ks k j =
    ground (arith, contains-append ks (k ∷ []) j, key_comparable.equal_iff k j)

pub contains-add_keys :
    (ks l : List RoleMapKey) (j : RoleMapKey)
    → contains (add_keys ks l) j ≡ (contains ks j || contains l j)
unfolding add_keys
contains-add_keys ks [] j = ground arith
contains-add_keys ks (k ∷ l) j =
    ground (arith, contains-add_keys (add_key ks k) l j, contains-add_key ks k j)

distinct-add_key :
    (ks : List RoleMapKey) (k : RoleMapKey) → distinct ks ≡ true → distinct (add_key ks k) ≡ true
unfolding add_key
distinct-add_key ks k h = ground (arith, distinct-concat ks k)

pub distinct-add_keys :
    (ks l : List RoleMapKey) → distinct ks ≡ true → distinct (add_keys ks l) ≡ true
unfolding add_keys
distinct-add_keys ks [] h = h
distinct-add_keys ks (k ∷ l) h = distinct-add_keys (add_key ks k) l (distinct-add_key ks k h)

any-add_key :
    (p : RoleMapKey → Bool) (ks : List RoleMapKey) (k : RoleMapKey)
    → any p (add_key ks k) ≡ (any p ks || p k)
unfolding add_key
any-add_key p ks k = ground (arith, any-append p ks (k ∷ []), any_of_contains p ks k)

pub any-add_keys :
    (p : RoleMapKey → Bool) (ks l : List RoleMapKey) → any p (add_keys ks l) ≡ (any p ks || any p l)
unfolding add_keys
any-add_keys p ks [] = ground arith
any-add_keys p ks (k ∷ l) = ground (arith, any-add_keys p (add_key ks k) l, any-add_key p ks k)

-- The names of listed keys are found among any keys that hold the listed ones.
pub role_names_found :
    (ks l : List RoleMapKey)
    → ((k : RoleMapKey) → contains l k ≡ true → contains ks k ≡ true)
    → All (λ n. any (λ k. role_name k == n) ks ≡ true) (map role_name l)
role_names_found ks [] h = tt
role_names_found ks (k ∷ l) h = (
  any_of_contains (λ j. role_name j == role_name k) ks k
      (h k (ground (arith, key_comparable.equal_iff k k))) (==_refl (role_name k)),
  role_names_found ks l (λ j m. h j (ground arith)),
)
