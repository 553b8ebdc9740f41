-- ===== src/Rbac/Grants.antt =====
-- What `attachBinding` grants, seen through the names of roles.
use Prim.Native.String.{String}
use text.Mathlib.TextLemmas.{append_assoc, cons-append, nil-append}
use rhobs.Base.{◌<>◌, ◌≡◌, refl, sym, ap, ◌∙◌, true, ◌&&◌, ◌||◌, List, [], ◌∷◌, ◌++◌, map, arith}
use rhobs.Base.{
  all-append, any_cong, any_find, All-mono, Bool_ext, ◌==◌, text_comparable, any, all, any-append,
  contains, All, all_at,
}
use rhobs.Base.Text.Separator.{last_cut_inj}
use rhobs.Base.Outcome.{ok}
use rhobs.Rbac.{
  RoleBinding, Subject, RoleMapKey, BindingOpts, key_comparable, role_name, role_of,
  ObservatoriumRbac, attach_binding,
}
use rhobs.Rbac.Keys.{represent, add_key, add_keys, contains-add_keys}
use rhobs.Rbac.Attach.{IsConsistent, attach-eq-ok, after-IsConsistent}
use rhobs.Rbac.Calls.{opts_keys, opts_subjects, bind}
use rhobs.Rbac.Spec.{name_allows, binding_allows, permits, plain_key, subject_comparable}

dash-append : (s : String) → "-" <> s ≡ String.◌∷◌ "-" s
dash-append s = cons-append "-" String.[] s ∙ ap (String.◌∷◌ "-") (nil-append s)

role_name-cut :
    (k : RoleMapKey) → role_name k ≡ (k.tenant <> ("-" <> k.signal)) <> String.◌∷◌ "-" k.perm
unfolding role_name
role_name-cut k =
    ap (λ s. k.tenant <> ("-" <> (k.signal <> s))) (dash-append k.perm)
    ∙ sym (
        append_assoc k.tenant ("-" <> k.signal) (String.◌∷◌ "-" k.perm)
        ∙ ap (λ s. k.tenant <> s) (append_assoc "-" k.signal (String.◌∷◌ "-" k.perm)))

role_name_inj :
    (j k : RoleMapKey) → plain_key j ≡ true → plain_key k ≡ true → role_name j ≡ role_name k → j ≡ k
unfolding plain_key
role_name_inj j k pj pk e =
    let (front, perms) =
      last_cut_inj "-" (j.tenant <> ("-" <> j.signal)) (k.tenant <> ("-" <> k.signal)) j.perm k.perm
        (ground arith) (ground arith) (sym (role_name-cut j) ∙ e ∙ role_name-cut k) in
    let (tenants, signals) =
      last_cut_inj "-" j.tenant k.tenant j.signal k.signal (ground arith) (ground arith) (
        sym (ap (λ s. j.tenant <> s) (dash-append j.signal))
        ∙ front
        ∙ ap (λ s. k.tenant <> s) (dash-append k.signal)) in
    ground (arith, tenants, signals, perms)

same_name :
    (j k : RoleMapKey)
    → plain_key j ≡ true
    → plain_key k ≡ true
    → (role_name j == role_name k) ≡ (j == k)
same_name j k pj pk =
    Bool_ext _ _
      (λ h.
        (key_comparable.equal_iff j k).1
          (role_name_inj j k pj pk ((text_comparable.equal_iff _ _).0 h)))
      (λ h. (text_comparable.equal_iff _ _).1 (ap role_name ((key_comparable.equal_iff j k).0 h)))

-- Looked up by the name of a plain key, the roles of plain keys allow that key's permission alone.
name_allows-role_name :
    (ks : List RoleMapKey) (k r : RoleMapKey)
    → all plain_key ks ≡ true
    → plain_key k ≡ true
    → name_allows (map role_of ks) (role_name k) r ≡ (contains ks k && k == r)
unfolding name_allows role_of
name_allows-role_name [] k r h pk = refl
name_allows-role_name (j ∷ ks) k r h pk =
    ground (arith, name_allows-role_name ks k r, same_name j k, key_comparable.equal_iff j k)

module _ (ks l : List RoleMapKey) (r : RoleMapKey) (plain : all plain_key ks ≡ true)
    (plain' : all plain_key (add_keys ks l) ≡ true) where
  name_allows_kept :
      (n : String)
      → any (λ k. role_name k == n) ks ≡ true
      → name_allows (map role_of (add_keys ks l)) n r ≡ name_allows (map role_of ks) n r
  name_allows_kept n h =
      let (k, m, q) = any_find (λ k. role_name k == n) ks h in
      let e = (text_comparable.equal_iff (role_name k) n).0 q in
      rw (← e) (
        ground (
          arith,
          name_allows-role_name (add_keys ks l) k r,
          name_allows-role_name ks k r,
          all_at plain_key ks k,
          contains-add_keys ks l k,
        ))

  binding_allows_kept :
      (s : Subject) (b : RoleBinding)
      → All (λ n. any (λ k. role_name k == n) ks ≡ true) b.roles
      → binding_allows (map role_of (add_keys ks l)) b s r ≡ binding_allows (map role_of ks) b s r
  unfolding binding_allows
  binding_allows_kept s b h =
      ap (λ x. contains b.subjects s && x)
        (any_cong _ _ b.roles (All-mono _ _ name_allows_kept b.roles h))

name_allows_new :
    (ks l : List RoleMapKey) (r : RoleMapKey)
    → all plain_key ks ≡ true
    → ((k : RoleMapKey) → contains l k ≡ true → contains ks k ≡ true)
    → any (λ n. name_allows (map role_of ks) n r) (map role_name l) ≡ contains l r
name_allows_new ks [] r h sub = refl
name_allows_new ks (k ∷ l) r h sub =
    let m = sub k (ground (arith, key_comparable.equal_iff k k)) in
    ground (
      arith,
      name_allows_new ks l r h (λ j n. sub j (ground arith)),
      name_allows-role_name ks k r h (all_at plain_key ks k h m),
    )

-- A consistent configuration whose role names can be cut in one way.
pub record IsUnambiguous (o : ObservatoriumRbac) : Type 0 where
  pub consistent : IsConsistent o
  pub plain : all plain_key consistent.keys ≡ true

pub all-add_keys :
    (ks l : List RoleMapKey)
    → all plain_key ks ≡ true
    → all plain_key l ≡ true
    → all plain_key (add_keys ks l) ≡ true
unfolding add_keys
all-add_keys ks [] h g = h
all-add_keys ks (k ∷ l) h g =
    all-add_keys (add_key ks k) l
      (unfold add_key in ground (arith, all-append plain_key ks (k ∷ []))) (ground arith)

bindings_kept :
    (ks l : List RoleMapKey) (s : Subject) (r : RoleMapKey) (bs : List RoleBinding)
    → all plain_key ks ≡ true
    → all plain_key (add_keys ks l) ≡ true
    → All (λ b. All (λ n. any (λ k. role_name k == n) ks ≡ true) b.roles) bs
    → any (λ b. binding_allows (map role_of (add_keys ks l)) b s r) bs
      ≡ any (λ b. binding_allows (map role_of ks) b s r) bs
bindings_kept ks l s r bs h h' found =
    any_cong _ _ bs (All-mono _ _ (binding_allows_kept ks l r h h' s) bs found)

module _ (ks : List RoleMapKey) (bs : List RoleBinding) (name : String) (l : List RoleMapKey)
    (subs : List Subject) (s : Subject) (r : RoleMapKey) where
  pub permits_after :
      all plain_key ks ≡ true
      → all plain_key l ≡ true
      → All (λ b. All (λ n. any (λ k. role_name k == n) ks ≡ true) b.roles) bs
      → permits (represent (add_keys ks l) (bs ++ (bind name l subs ∷ []))) s r
        ≡ (permits (represent ks bs) s r || (contains subs s && contains l r))
  unfolding permits binding_allows
  permits_after h g found =
      let h' = all-add_keys ks l h g in
      ground (
        arith,
        any-append (λ b. binding_allows (map role_of (add_keys ks l)) b s r) bs
            (bind name l subs ∷ []),
        bindings_kept ks l s r bs h h' found,
        name_allows_new (add_keys ks l) l r h' (λ k m. ground (arith, contains-add_keys ks l k)),
      )

pub permits_at :
    {o : ObservatoriumRbac} (c : IsConsistent o) (s : Subject) (r : RoleMapKey)
    → permits o s r ≡ permits (represent c.keys o.role_bindings) s r
permits_at c s r = ap (λ x. permits x s r) c.represented

-- A call of `attachBinding` that returns grants what its options say and nothing else: afterwards
-- a subject may do something exactly if it could before, or if it is one of the new subjects and
-- the thing is one of the permissions, for one of the signals, of the tenant of the options. The
-- configuration before is consistent, and no signal or permission in it or in the options has a
-- dash.
pub attach-permits :
    {o o' : ObservatoriumRbac} (opts : BindingOpts) (s : Subject) (r : RoleMapKey)
    → IsUnambiguous o
    → all plain_key (opts_keys opts) ≡ true
    → attach_binding o opts ≡ ok o'
    → permits o' s r
      ≡ (permits o s r || (contains (opts_subjects opts) s && contains (opts_keys opts) r))
attach-permits {o} opts s r u g e =
    let c = u.consistent in
    rw ((attach-eq-ok opts c e).2, permits_at c s r)
      (permits_after c.keys o.role_bindings opts.name (opts_keys opts) (opts_subjects opts) s r
        u.plain g c.resolved)

pub attach-IsUnambiguous :
    {o o' : ObservatoriumRbac} (opts : BindingOpts)
    → IsUnambiguous o
    → all plain_key (opts_keys opts) ≡ true
    → attach_binding o opts ≡ ok o'
    → IsUnambiguous o'
unfolding after-IsConsistent
attach-IsUnambiguous {o} opts u g e =
    let c = u.consistent in
    let (fresh, _, p) = attach-eq-ok opts c e in
    rw p (record {
      consistent =
          after-IsConsistent c.keys o.role_bindings opts.name (opts_keys opts) (opts_subjects opts)
            c.named_once fresh c.once c.resolved;
      plain = all-add_keys c.keys (opts_keys opts) u.plain g;
    })
