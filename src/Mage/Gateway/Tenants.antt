-- ===== src/Mage/Gateway/Tenants.antt =====
-- The tenants of the RBAC configuration are tenants of the gateway.
use Prim.Native.Char.{code}
use rhobs.Base.{
  String, ◌≡◌, refl, sym, ◌∙◌, ◌<>◌, Bool, true, false, eqb, text_comparable, if◌then◌else◌,
  Bool-cases, inl, inr, Option, none, some, List, [], ◌∷◌, all, all_at, contains, arith,
}
use rhobs.Base.Text.{contains_char}
use rhobs.Base.Outcome.{ok}
use rhobs.Rbac.{Permission, Subject, RoleMapKey, key_comparable, ObservatoriumRbac, BindingOpts}
use rhobs.Rbac.Keys.{keys_of}
use rhobs.Rbac.Calls.{opts_keys}
use rhobs.Rbac.Spec.{permits, subject_comparable}
use rhobs.Rbac.Generate.{before_admin, after_admin, generate_rbac}
use rhobs.Rbac.Generate.Run.{granted}
use rhobs.Rbac.Generate.Permits.{listed, generate_rbac-permits, admin_keys}
use rhobs.Mage.Gateway.Config.{tenants_yaml}

-- The lines of a text; `line` is what is read of the first one.
lines_from : (line : String) → String → List String
lines_from line String.[] = line ∷ []
lines_from line (String.◌∷◌ c s) =
    let next = lines_from "" s in
    let more = lines_from (line <> String.◌∷◌ c "") s in
    if eqb (code c) 10 then line ∷ next else more

-- What follows a prefix in a line.
abbrev after_prefix : (prefix line : String) → Option String
after_prefix String.[] s = some s
after_prefix (String.◌∷◌ c p) String.[] = none
after_prefix (String.◌∷◌ c p) (String.◌∷◌ d s) =
    let rest = after_prefix p s in if eqb (code c) (code d) then rest else none

abbrev prefixed : (prefix : String) → List String → List String
prefixed p [] = []
prefixed p (l ∷ ls) = elim (after_prefix p l) [ none ↦ prefixed p ls | some s ↦ s ∷ prefixed p ls ]

-- The names of the tenants, each in a line of its own below `tenants:`.
pub tenant_names : List String
unfolding lines_from
tenant_names = prefixed "        name: " (lines_from "" tenants_yaml)

abbrev expected : List String
expected =
    "rhobs" ∷ "osd" ∷ "rhacs" ∷ "cnvqe" ∷ "psiocp" ∷ "rhods" ∷ "odfms" ∷ "reference-addon" ∷ "dptp"
    ∷ "appsre" ∷ "rhtap" ∷ "rhel" ∷ "telemeter" ∷ []

tenant_names_test : tenant_names ≡ expected
unfolding tenant_names
tenant_names_test = refl

abbrev known : RoleMapKey → Bool
known r = contains tenant_names r.tenant

granted_sound :
    (p : RoleMapKey → Bool) (bs : List BindingOpts) (s : Subject) (r : RoleMapKey)
    → all (λ b. all p (opts_keys b)) bs ≡ true
    → granted bs s r ≡ true
    → p r ≡ true
granted_sound p [] s r h g = cc
granted_sound p (b ∷ bs) s r h g = elim (Bool-cases (contains (opts_keys b) r)) [
  | inl e ↦ all_at p (opts_keys b) r (ground (arith, h)) e
  | inr e ↦ granted_sound p bs s r (ground (arith, h)) (ground (arith, g, e))
]

listed-known :
    (write read : Permission) (s : Subject) (r : RoleMapKey)
    → listed write read s r ≡ true
    → known r ≡ true
unfolding keys_of tenant_names
listed-known write read s r h = elim (Bool-cases (granted (before_admin write read) s r)) [
  | inl e ↦ granted_sound known (before_admin write read) s r refl e
  | inr e ↦ elim (Bool-cases (granted (after_admin write read) s r)) [
    | inl f ↦ granted_sound known (after_admin write read) s r refl f
    | inr f ↦ all_at known (admin_keys read) r refl (ground (arith, h, e, f))
  ]
]

-- Every tenant for which the configuration of `GenerateRBAC` permits something to some subject is a
-- tenant that the gateway of the stage environment knows by that name. The two permissions have no dash.
pub tenants-permitted :
    (write read : Permission) (o : ObservatoriumRbac) (s : Subject) (r : RoleMapKey)
    → contains_char write "-" ≡ false
    → contains_char read "-" ≡ false
    → generate_rbac write read ≡ ok o
    → permits o s r ≡ true
    → contains tenant_names r.tenant ≡ true
tenants-permitted write read o s r pw pr e h =
    let (o', e', _, exact) = generate_rbac-permits write read pw pr in
    let same : o ≡ o' = ground (arith, e, e') in
    listed-known write read s r (sym (exact s r) ∙ rw same at h)
