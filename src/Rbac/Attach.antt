-- ===== src/Rbac/Attach.antt =====
-- `attachBinding`: when it panics, what it adds, and the invariant of the configuration.
use mathlib.Core.List.{map-append}
use rhobs.Base.{
  String, ◌≡◌, ◌≢◌, ap, ◌∙◌, refl, ◌↔◌, ◌⊎◌, inl, inr, true, false, List, [], ◌∷◌, ◌++◌, map, arith,
}
use rhobs.Base.{
  Bool-cases, ◌==◌, text_comparable, any, contains, distinct, distinct-concat, All, All-append,
  All-mono,
}
use rhobs.Base.Outcome.{ok}
use rhobs.Rbac.{
  Env, RoleMapKey, RoleBinding, Subject, ObservatoriumRbac, BindingOpts, key_comparable, role_name,
  attach_binding,
}
use rhobs.Rbac.Keys.{
  represent, add_keys, contains-add_keys, distinct-add_keys, any-add_keys, role_names_found,
}
use rhobs.Rbac.Calls.{
  is_empty, FollowsConvention, conforms, opts_keys, bind, opts_subjects, binding_of, taken,
  follows_sound, follows_complete, attach-represent,
}

-- The configuration is given by its keys and bindings, each key and each binding name once, and
-- every role name of a binding is that of a key.
pub record IsConsistent (o : ObservatoriumRbac) : Type 0 where
  pub keys : List RoleMapKey
  pub represented : o ≡ represent keys o.role_bindings
  pub once : distinct keys ≡ true
  pub named_once : distinct (map (λ b. b.name) o.role_bindings) ≡ true
  pub resolved :
      All (λ b. All (λ n. any (λ k. role_name k == n) keys ≡ true) b.roles) o.role_bindings

pub contains-names :
    (bs : List RoleBinding) (name : String) → taken bs name ≡ contains (map (λ b. b.name) bs) name
contains-names [] name = refl
contains-names (b ∷ bs) name = ground (arith, contains-names bs name)

module _ (ks : List RoleMapKey) (bs : List RoleBinding) (name : String) (l : List RoleMapKey)
    (subs : List Subject) where
  abbrev pub keys' : List RoleMapKey
  keys' = add_keys ks l

  abbrev pub Found : List RoleMapKey → RoleBinding → Type 0
  Found keys b = All (λ n. any (λ k. role_name k == n) keys ≡ true) b.roles

  pub Found-mono : (b : RoleBinding) → Found ks b → Found keys' b
  Found-mono b =
      All-mono _ _ (λ n h. ground (arith, any-add_keys (λ k. role_name k == n) ks l)) b.roles

  pub named_once_after :
      distinct (map (λ b. b.name) bs) ≡ true
      → taken bs name ≡ false
      → distinct (map (λ b. b.name) (bs ++ (bind name l subs ∷ []))) ≡ true
  named_once_after d fresh =
      rw (map-append (λ b. b.name) bs (bind name l subs ∷ []))
        (distinct-concat (map (λ b. b.name) bs) name d (ground (arith, contains-names bs name)))

  pub new_keys_kept : (k : RoleMapKey) → contains l k ≡ true → contains keys' k ≡ true
  new_keys_kept k m = ground (arith, contains-add_keys ks l k)

  unfoldable pub after-IsConsistent :
      distinct (map (λ b. b.name) bs) ≡ true
      → taken bs name ≡ false
      → distinct ks ≡ true
      → All (Found ks) bs
      → IsConsistent (represent keys' (bs ++ (bind name l subs ∷ [])))
  after-IsConsistent c fresh once found = record {
    keys = keys';
    represented = refl;
    once = distinct-add_keys ks l once;
    named_once = named_once_after c fresh;
    resolved =
        All-append (Found keys') bs (bind name l subs ∷ []) (All-mono _ _ Found-mono bs found)
          (role_names_found keys' l new_keys_kept, tt);
  }

attach_at :
    {o : ObservatoriumRbac} (opts : BindingOpts) (c : IsConsistent o)
    → attach_binding o opts ≡ attach_binding (represent c.keys o.role_bindings) opts
attach_at opts c = ap (λ x. attach_binding x opts) c.represented

-- A call that returns has met both guards, and its result is known.
pub attach-eq-ok :
    {o o' : ObservatoriumRbac} (opts : BindingOpts) (c : IsConsistent o)
    → attach_binding o opts ≡ ok o'
    → (taken o.role_bindings opts.name ≡ false)
      × (conforms opts ≡ true)
      × (o'
          ≡ represent
              (add_keys c.keys (opts_keys opts))
              (o.role_bindings ++ (binding_of opts ∷ [])))
attach-eq-ok {o} opts c e =
    ground (arith, attach_at opts c, attach-represent c.keys o.role_bindings opts)

-- A call that meets both guards returns, and adds its name.
pub attach_accepted :
    {o : ObservatoriumRbac} (opts : BindingOpts)
    → IsConsistent o
    → taken o.role_bindings opts.name ≡ false
    → conforms opts ≡ true
    → (o' : ObservatoriumRbac) × (attach_binding o opts ≡ ok o')
      × (map (λ b. b.name) o'.role_bindings ≡ map (λ b. b.name) o.role_bindings ++ (opts.name ∷ []))
attach_accepted {o} opts c fresh good = (
  represent (add_keys c.keys (opts_keys opts)) (o.role_bindings ++ (binding_of opts ∷ [])),
  attach_at opts c ∙ rw (attach-represent c.keys o.role_bindings opts, fresh, good),
  map-append (λ b. b.name) o.role_bindings (binding_of opts ∷ []),
)

-- From a consistent configuration, what `attachBinding` returns is consistent: the roles and the
-- deduplication map still come from one list of keys, no key and no binding name is there twice,
-- and every role that a binding names exists.
pub attach-IsConsistent :
    {o o' : ObservatoriumRbac} (opts : BindingOpts)
    → IsConsistent o
    → attach_binding o opts ≡ ok o'
    → IsConsistent o'
attach-IsConsistent {o} opts c e =
    let (fresh, _, p) = attach-eq-ok opts c e in
    rw p (
      after-IsConsistent c.keys o.role_bindings opts.name (opts_keys opts) (opts_subjects opts)
        c.named_once fresh c.once c.resolved)

-- What a caller has to meet.
abbrev pub Accepts : ObservatoriumRbac → BindingOpts → Type 0
Accepts o opts =
    All (λ b. b.name ≢ opts.name) o.role_bindings
    × ((opts.envs ≡ []) ⊎ (opts.skip_convention_check ≡ true) ⊎ FollowsConvention opts.name)

fresh_iff :
    (bs : List RoleBinding) (name : String) → (taken bs name ≡ false) ↔ All (λ b. b.name ≢ name) bs
fresh_iff [] name = (λ _. tt, λ _. refl)
fresh_iff (b ∷ bs) name = (
  λ h. (
    (λ p. ground (arith, text_comparable.equal_iff b.name name)),
    (fresh_iff bs name).0 (ground arith),
  ),
  λ h. ground (arith, text_comparable.equal_iff b.name name, (fresh_iff bs name).1 h.1, h.0),
)

eq-nil_of_is_empty : (envs : List Env) → is_empty envs ≡ true → envs ≡ []
eq-nil_of_is_empty [] h = refl
eq-nil_of_is_empty (e ∷ envs) h = cc

conforms_sound :
    (opts : BindingOpts)
    → conforms opts ≡ true
    → (opts.envs ≡ []) ⊎ (opts.skip_convention_check ≡ true) ⊎ FollowsConvention opts.name
unfolding conforms
conforms_sound opts h = elim (Bool-cases (is_empty opts.envs)) [
  | inl e ↦ inl (eq-nil_of_is_empty opts.envs e)
  | inr n ↦ elim (Bool-cases opts.skip_convention_check) [
    | inl s ↦ inr (inl s)
    | inr m ↦ inr (inr (follows_sound opts.name (ground arith)))
  ]
]

conforms_complete :
    (opts : BindingOpts)
    → (opts.envs ≡ []) ⊎ (opts.skip_convention_check ≡ true) ⊎ FollowsConvention opts.name
    → conforms opts ≡ true
unfolding conforms
conforms_complete opts (inl e) = rw e
conforms_complete opts (inr (inl s)) = ground arith
conforms_complete opts (inr (inr f)) = ground (arith, follows_complete opts.name f)

-- On a consistent configuration `attachBinding` returns, and does not panic, exactly when no
-- binding has the name yet and one of three holds: there is no environment, the check of the
-- naming convention is skipped, or no environment's name ends the binding's name.
pub attach_returns_iff :
    (o : ObservatoriumRbac) (opts : BindingOpts)
    → IsConsistent o
    → ((o' : ObservatoriumRbac) × (attach_binding o opts ≡ ok o')) ↔ Accepts o opts
attach_returns_iff o opts c = (to, from)
  where
    to : (o' : ObservatoriumRbac) × (attach_binding o opts ≡ ok o') → Accepts o opts
    to (o', e) =
        let (fresh, good, _) = attach-eq-ok opts c e in
        ((fresh_iff o.role_bindings opts.name).0 fresh, conforms_sound opts good)

    from : Accepts o opts → (o' : ObservatoriumRbac) × (attach_binding o opts ≡ ok o')
    from (fresh, good) =
        let (o', e, _) =
          attach_accepted opts c ((fresh_iff o.role_bindings opts.name).1 fresh)
            (conforms_complete opts good) in
        (o', e)
