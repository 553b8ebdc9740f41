-- ===== src/Rbac/Generate/Permits.antt =====
-- `GenerateRBAC` returns, and what its result permits.
use mathlib.Core.List.{map-append}
use rhobs.Base.{◌≡◌, refl, ◌∙◌, ap, Bool, true, false, ◌&&◌, ◌||◌, List, [], ◌∷◌, ◌++◌, map, arith}
use rhobs.Base.{text_comparable, all, contains}
use rhobs.Base.Text.{contains_char}
use rhobs.Base.Outcome.{ok}
use rhobs.Rbac.{
  Permission, Subject, RoleBinding, RoleMapKey, key_comparable, ObservatoriumRbac, metrics_signal,
  tenant_name_follows_convention,
}
use rhobs.Rbac.Keys.{represent, add_keys, key, keys_of, get_or_create-represent, add_key}
use rhobs.Rbac.Attach.{IsConsistent, after-IsConsistent, contains-names}
use rhobs.Rbac.Calls.{conforms, bind, taken}
use rhobs.Rbac.Spec.{permits, plain_key, subject_comparable}
use rhobs.Rbac.Grants.{IsUnambiguous, permits_at, permits_after, all-add_keys}
use rhobs.Rbac.Generate.{
  empty, before_admin, after_admin, append_admin, generate_rbac, team_monitoring, telemeter_tenant,
  rhobs_tenant,
}
use rhobs.Rbac.Generate.Run.{Ran, run, names_of, admits, granted, all_plain}

pub empty-IsUnambiguous : IsUnambiguous empty
empty-IsUnambiguous = record {
  consistent = record {
    keys = [];
    represented = refl;
    once = refl;
    named_once = refl;
    resolved = tt;
  };
  plain = refl;
}

abbrev pub admin_keys : Permission → List RoleMapKey
admin_keys read =
    key telemeter_tenant metrics_signal read ∷ key rhobs_tenant metrics_signal read ∷ []

module _ (read : Permission) where
  append_admin-represent :
      (ks : List RoleMapKey) (bs : List RoleBinding)
      → append_admin read (represent ks bs)
        ≡ represent
            (add_keys ks (admin_keys read))
            (bs ++ (bind "rhobs-admin" (admin_keys read) (team_monitoring ∷ []) ∷ []))
  unfolding append_admin add_keys
  append_admin-represent ks bs = rw (
    get_or_create-represent ks bs (key telemeter_tenant metrics_signal read),
    get_or_create-represent (add_key ks (key telemeter_tenant metrics_signal read)) bs
        (key rhobs_tenant metrics_signal read),
  )

  -- The admin binding keeps an unambiguous configuration so, and adds its two permissions.
  module _ (o : ObservatoriumRbac) (u : IsUnambiguous o)
      (plain : all plain_key (admin_keys read) ≡ true) where
    admin_at :
        append_admin read o
        ≡ represent
            (add_keys u.consistent.keys (admin_keys read))
            (o.role_bindings ++ (bind "rhobs-admin" (admin_keys read) (team_monitoring ∷ []) ∷ []))
    admin_at =
        ap (append_admin read) u.consistent.represented
        ∙ append_admin-represent u.consistent.keys o.role_bindings

    append_admin-names : names_of (append_admin read o) ≡ names_of o ++ ("rhobs-admin" ∷ [])
    append_admin-names = rw admin_at (map-append (λ b. b.name) o.role_bindings _)

    append_admin-IsUnambiguous :
        taken o.role_bindings "rhobs-admin" ≡ false → IsUnambiguous (append_admin read o)
    unfolding after-IsConsistent
    append_admin-IsUnambiguous fresh =
        let c = u.consistent in
        rw admin_at (record {
          consistent =
              after-IsConsistent c.keys o.role_bindings "rhobs-admin" (admin_keys read)
                (team_monitoring ∷ []) c.named_once fresh c.once c.resolved;
          plain = all-add_keys c.keys (admin_keys read) u.plain plain;
        })

    append_admin-permits :
        (s : Subject) (r : RoleMapKey)
        → permits (append_admin read o) s r
          ≡ (permits o s r || (contains (team_monitoring ∷ []) s && contains (admin_keys read) r))
    append_admin-permits s r =
        let c = u.consistent in
        rw (admin_at, permits_at c s r)
          (permits_after c.keys o.role_bindings "rhobs-admin" (admin_keys read)
            (team_monitoring ∷ []) s r u.plain plain c.resolved)

-- What the source lists: the bindings before the admin one, the admin one, and those after it.
abbrev pub listed : Permission → Permission → Subject → RoleMapKey → Bool
listed write read s r =
    granted (before_admin write read) s r
    || ((contains (team_monitoring ∷ []) s && contains (admin_keys read) r)
        || granted (after_admin write read) s r)

or_chain :
    (w x y z a b c : Bool)
    → w ≡ false
    → x ≡ (w || a)
    → y ≡ (x || b)
    → z ≡ (y || c)
    → z ≡ (a || (b || c))
or_chain w x y z a b c p q r s = ground arith

module _ (write read : Permission) where
  before_admits : admits [] (before_admin write read) ≡ true
  unfolding admits conforms tenant_name_follows_convention
  before_admits = refl

  after_admits :
      admits
        (map (λ b. b.name) (before_admin write read) ++ ("rhobs-admin" ∷ []))
        (after_admin write read)
      ≡ true
  unfolding admits conforms tenant_name_follows_convention
  after_admits = refl

  module _ (plain_write : contains_char write "-" ≡ false)
      (plain_read : contains_char read "-" ≡ false) where
    before_plain : all_plain (before_admin write read) ≡ true
    unfolding plain_key contains_char keys_of
    before_plain = rw (plain_write, plain_read)

    after_plain : all_plain (after_admin write read) ≡ true
    unfolding plain_key contains_char keys_of
    after_plain = rw (plain_write, plain_read)

    admin_plain : all plain_key (admin_keys read) ≡ true
    unfolding plain_key contains_char
    admin_plain = rw plain_read

    first_run : Ran empty (before_admin write read)
    first_run = run empty (before_admin write read) empty-IsUnambiguous before_admits before_plain

    admin_fresh : taken first_run.result.role_bindings "rhobs-admin" ≡ false
    admin_fresh =
        rw (contains-names first_run.result.role_bindings "rhobs-admin", first_run.names) refl

    second_run : Ran (append_admin read first_run.result) (after_admin write read)
    second_run =
        run (append_admin read first_run.result) (after_admin write read)
          (append_admin-IsUnambiguous read first_run.result first_run.unambiguous admin_plain
            admin_fresh)
          (rw
            (
              append_admin-names read first_run.result first_run.unambiguous admin_plain,
              first_run.names,
            )
            after_admits)
          after_plain

    permits-empty : (s : Subject) (r : RoleMapKey) → permits empty s r ≡ false
    unfolding permits
    permits-empty s r = refl

    generated_permits :
        (s : Subject) (r : RoleMapKey) → permits second_run.result s r ≡ listed write read s r
    generated_permits s r =
        or_chain _ _ _ _ _ _ _ (permits-empty s r) (first_run.grants s r)
          (append_admin-permits read first_run.result first_run.unambiguous admin_plain s r)
          (second_run.grants s r)

    -- `GenerateRBAC` does not panic, and its configuration permits to a subject exactly what the
    -- binding options of the source and the admin binding list for that subject. The names of the
    -- two permissions have no dash.
    pub generate_rbac-permits :
        (o : ObservatoriumRbac) × (generate_rbac write read ≡ ok o)
        × IsConsistent o
        × ((s : Subject) (r : RoleMapKey) → permits o s r ≡ listed write read s r)
    unfolding generate_rbac
    generate_rbac-permits = (
      second_run.result,
      rw first_run.returns second_run.returns,
      second_run.unambiguous.consistent,
      generated_permits,
    )
