-- ===== src/Rbac/Generate/Writers.antt =====
-- Who may write metrics of the telemeter tenant.
use Prim.Native.String.{String}
use rhobs.Base.{◌≡◌, ◌≢◌, refl, ◌∙◌, true, false, List, [], ◌∷◌, arith}
use rhobs.Base.{inl, inr, Bool-cases, ◌==◌, text_comparable, any, contains, if◌then◌else◌}
use rhobs.Base.Text.{contains_char}
use rhobs.Base.Outcome.{ok}
use rhobs.Rbac.{
  Permission, Subject, user, RoleMapKey, key_comparable, ObservatoriumRbac, BindingOpts,
  metrics_signal, subject_name,
}
use rhobs.Rbac.Keys.{key, keys_of}
use rhobs.Rbac.Calls.{opts_keys, opts_subjects}
use rhobs.Rbac.Spec.{permits, subject_comparable}
use rhobs.Rbac.Generate.{before_admin, after_admin, generate_rbac, telemeter_tenant}
use rhobs.Rbac.Generate.Run.{granted}
use rhobs.Rbac.Generate.Permits.{listed, generate_rbac-permits}

-- The options that list a permission.
holders : List BindingOpts → RoleMapKey → List BindingOpts
holders [] r = []
holders (b ∷ bs) r = let rest = holders bs r in if contains (opts_keys b) r then b ∷ rest else rest

granted-holders :
    (bs : List BindingOpts) (s : Subject) (r : RoleMapKey)
    → granted bs s r ≡ any (λ b. contains (opts_subjects b) s) (holders bs r)
unfolding holders
granted-holders [] s r = refl
granted-holders (b ∷ bs) s r = elim (Bool-cases (contains (opts_keys b) r)) [
  | inl e ↦ rw e (ground (arith, granted-holders bs s r))
  | inr e ↦ rw e (ground (arith, granted-holders bs s r))
]

abbrev service_account : String → Subject
service_account name = record { name = name; kind = user }

abbrev pub telemeter_writers : List Subject
telemeter_writers =
    service_account "service-account-telemeter-service-staging"
    ∷ service_account "service-account-telemeter-service"
    ∷ []

module _ (write read : Permission) (differ : write ≢ read) where
  abbrev write_key : RoleMapKey
  write_key = key telemeter_tenant metrics_signal write

  read_ne_write : (read == write) ≡ false
  read_ne_write = ground (arith, text_comparable.equal_iff read write)

  write_eq_write : (write == write) ≡ true
  write_eq_write = ground (arith, text_comparable.equal_iff write write)

  holders_before : holders (before_admin write read) write_key ≡ []
  unfolding holders keys_of
  holders_before = refl

  granted_after :
      (s : Subject) → granted (after_admin write read) s write_key ≡ contains telemeter_writers s
  granted_after s =
      rw (granted-holders (after_admin write read) s write_key)
        (unfold holders keys_of subject_name in rw (read_ne_write, write_eq_write) (ground arith))

  listed_writers : (s : Subject) → listed write read s write_key ≡ contains telemeter_writers s
  listed_writers s =
      rw (granted-holders (before_admin write read) s write_key, holders_before, granted_after s)
        (rw read_ne_write (ground arith))

  -- In the configuration that `GenerateRBAC` returns, metrics of the telemeter tenant are written
  -- by the two service accounts of `telemeter-service` and by no other subject. Write and read are
  -- two permissions without a dash.
  pub telemeter_writers_only :
      (o : ObservatoriumRbac) (s : Subject)
      → contains_char write "-" ≡ false
      → contains_char read "-" ≡ false
      → generate_rbac write read ≡ ok o
      → permits o s write_key ≡ contains telemeter_writers s
  telemeter_writers_only o s pw pr e =
      let (o', e', _, h) = generate_rbac-permits write read pw pr in
      let same : o ≡ o' = ground (arith, e, e') in rw same (h s write_key ∙ listed_writers s)
