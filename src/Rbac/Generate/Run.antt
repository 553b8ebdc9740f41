-- ===== src/Rbac/Generate/Run.antt =====
-- A run of `attachBinding` calls, and the admin binding, from an unambiguous configuration.
use mathlib.Core.List.{append_assoc, append-nil}
use rhobs.Base.{
  String, ◌≡◌, refl, sym, ◌∙◌, Bool, true, not, ◌&&◌, ◌||◌, List, [], ◌∷◌, ◌++◌, map, arith,
}
use rhobs.Base.{text_comparable, all, any, contains}
use rhobs.Base.Outcome.{ok}
use rhobs.Rbac.{Subject, RoleMapKey, key_comparable, ObservatoriumRbac, BindingOpts, attach_binding}
use rhobs.Rbac.Attach.{contains-names, attach_accepted}
use rhobs.Rbac.Calls.{opts_keys, opts_subjects, conforms}
use rhobs.Rbac.Spec.{permits, plain_key, subject_comparable}
use rhobs.Rbac.Grants.{IsUnambiguous, attach-IsUnambiguous, attach-permits}
use rhobs.Rbac.Generate.{attach_all}

abbrev pub names_of : ObservatoriumRbac → List String
names_of o = map (λ b. b.name) o.role_bindings

-- Each name is new when its turn comes, and each call passes the check of the convention.
unfoldable pub admits : List String → List BindingOpts → Bool
admits ns [] = true
admits ns (b ∷ bs) = not (contains ns b.name) && (conforms b && admits (ns ++ (b.name ∷ [])) bs)

abbrev pub all_plain : List BindingOpts → Bool
all_plain bs = all (λ b. all plain_key (opts_keys b)) bs

-- What a list of options grants, on its own.
abbrev pub granted : List BindingOpts → Subject → RoleMapKey → Bool
granted bs s r = any (λ b. contains (opts_subjects b) s && contains (opts_keys b) r) bs

-- The result of a run over `bs`.
pub record Ran (o : ObservatoriumRbac) (bs : List BindingOpts) : Type 0 where
  pub result : ObservatoriumRbac
  pub returns : attach_all o bs ≡ ok result
  pub unambiguous : IsUnambiguous result
  pub names : names_of result ≡ names_of o ++ map (λ b. b.name) bs
  pub grants :
      (s : Subject) (r : RoleMapKey) → permits result s r ≡ (permits o s r || granted bs s r)

ran_cons :
    (o o' : ObservatoriumRbac) (b : BindingOpts) (bs : List BindingOpts)
    → IsUnambiguous o
    → all plain_key (opts_keys b) ≡ true
    → attach_binding o b ≡ ok o'
    → names_of o' ≡ names_of o ++ (b.name ∷ [])
    → Ran o' bs
    → Ran o (b ∷ bs)
unfolding attach_all
ran_cons o o' b bs u g e n rest = record {
  result = rest.result;
  returns = rw e rest.returns;
  unambiguous = rest.unambiguous;
  names = rest.names ∙ rw n (append_assoc (names_of o) (b.name ∷ []) (map (λ b. b.name) bs));
  grants = λ s r. ground (arith, rest.grants s r, attach-permits b s r u g e);
}

pub run :
    (o : ObservatoriumRbac) (bs : List BindingOpts)
    → IsUnambiguous o
    → admits (names_of o) bs ≡ true
    → all_plain bs ≡ true
    → Ran o bs
unfolding attach_all admits
run o [] u a g = record {
  result = o;
  returns = refl;
  unambiguous = u;
  names = sym (append-nil (names_of o));
  grants = λ s r. ground arith;
}
run o (b ∷ bs) u a g =
    let (o', e, n) =
      attach_accepted b u.consistent (ground (arith, contains-names o.role_bindings b.name))
        (ground arith) in
    ran_cons o o' b bs u (ground arith) e n
      (run o' bs (attach-IsUnambiguous b u (ground arith) e) (rw n (ground arith)) (ground arith))
