-- ===== src/Mage/Alertmanager/Listed.antt =====
-- The manifests that the post-processing looks up in a list, and the list after they have changed.
use mathlib.Core.Path.{subst}
use rhobs.Base.{
  ℕ, suc, ◌+◌, String, ◌≡◌, refl, ap, sym, ◌∙◌, All, Bool, true, ◌&&◌, ◌||◌, ◌==◌, text_comparable,
  if◌then◌else◌, Bool-cases, inl, inr, List, [], ◌∷◌, ◌++◌, map, arith,
}
use rhobs.Base.Outcome.{Outcome, ok, is_ok}
use rhobs.Base.Outcome.Runs.{returned}
use rhobs.Mage.Alertmanager.{Manifest}
use rhobs.Mage.Alertmanager.Target.{Found, put}

All_middle :
    (Q : Manifest → Type 0) (before : List Manifest) (o : Manifest) (after : List Manifest)
    → All Q (before ++ o ∷ after)
    → Q o
All_middle Q [] o after (q, h) = q
All_middle Q (x ∷ before) o after (q, h) = All_middle Q before o after h

-- Of the Go type, and with the name if one is given.
abbrev pub wanted : (kind name : String) → Manifest → Bool
wanted kind name o = o.kind == kind && (name == "" || o.name == name)

module _ (p : Manifest → Bool) where
  abbrev pub count : List Manifest → ℕ
  count [] = 0
  count (o ∷ os) = let rest = count os in if p o then suc rest else rest

  pub count-append : (xs ys : List Manifest) → count (xs ++ ys) ≡ count xs + count ys
  count-append [] ys = omega arith
  count-append (o ∷ xs) ys = ground (arith, count-append xs ys)

  pub count-map :
      (g : Manifest → Manifest)
      → ((o : Manifest) → p (g o) ≡ p o)
      → (os : List Manifest) → count (map g os) ≡ count os
  count-map g same [] = refl
  count-map g same (o ∷ os) = ground (arith, same o, count-map g same os)

  -- What a function does to the objects that are looked for.
  abbrev pub only : (g : Manifest → Manifest) → Manifest → Manifest
  only g o = if p o then g o else o

  only_none : (g : Manifest → Manifest) (os : List Manifest) → count os ≡ 0 → map (only g) os ≡ os
  only_none g [] h = refl
  only_none g (o ∷ os) h = elim (Bool-cases (p o)) [
    | inl e ↦ ground (arith, e, h)
    | inr e ↦ rw e (ap (λ xs. o ∷ xs) (only_none g os (ground (arith, e, h))))
  ]

  pub only_one :
      (g : Manifest → Manifest) (before : List Manifest) (o : Manifest) (after : List Manifest)
      → p o ≡ true
      → count (before ++ o ∷ after) ≡ 1
      → map (only g) (before ++ o ∷ after) ≡ before ++ g o ∷ after
  only_one g [] o after e h = rw e (ap (λ xs. g o ∷ xs) (only_none g after (ground (arith, e, h))))
  only_one g (x ∷ before) o after e h = elim (Bool-cases (p x)) [
    | inl f ↦ ground (arith, e, f, h, count-append before (o ∷ after))
    | inr f ↦ rw f (ap (λ xs. x ∷ xs) (only_one g before o after e (ground (arith, f, h))))
  ]

  none_All :
      (Q : Manifest → Type 0) (os : List Manifest) → count os ≡ 0 → All (λ o. p o ≡ true → Q o) os
  none_All Q [] h = tt
  none_All Q (o ∷ os) h = elim (Bool-cases (p o)) [
    | inl e ↦ ground (arith, e, h)
    | inr e ↦ (λ f. cc, none_All Q os (ground (arith, e, h)))
  ]

  -- What holds of the only one holds of each.
  pub one_All :
      (Q : Manifest → Type 0) (before : List Manifest) (o : Manifest) (after : List Manifest)
      → p o ≡ true
      → count (before ++ o ∷ after) ≡ 1
      → Q o
      → All (λ x. p x ≡ true → Q x) (before ++ o ∷ after)
  one_All Q [] o after e h q = (λ f. q, none_All Q after (ground (arith, e, h)))
  one_All Q (x ∷ before) o after e h q = elim (Bool-cases (p x)) [
    | inl f ↦ ground (arith, e, f, h, count-append before (o ∷ after))
    | inr f ↦ (λ f'. cc, one_All Q before o after e (ground (arith, f, h)) q)
  ]

-- What is relied on in `kghelpers.GetObject`: what it returns is in the list and is wanted, and it
-- returns if exactly one object is.
pub record Gets (get_object : (kind name : String) → List Manifest → Outcome Found) : Type 0 where
  pub sound :
      (kind name : String) (os : List Manifest) (f : Found)
      → get_object kind name os ≡ ok f
      → (os ≡ put f f.object) × (wanted kind name f.object ≡ true)
  pub complete :
      (kind name : String) (os : List Manifest)
      → count (wanted kind name) os ≡ 1
      → is_ok (get_object kind name os) ≡ true

-- One wanted object, found in a list.
pub record IsOne (get_object : (kind name : String) → List Manifest → Outcome Found)
    (kind name : String) (os : List Manifest) : Type 0 where
  pub found : Found
  pub returns : get_object kind name os ≡ ok found
  pub splits : os ≡ put found found.object
  pub is_wanted : wanted kind name found.object ≡ true
  pub single : count (wanted kind name) os ≡ 1

module _ {get_object : (kind name : String) → List Manifest → Outcome Found}
    (gets : Gets get_object) (kind name : String) (os : List Manifest) where
  pub finds : count (wanted kind name) os ≡ 1 → IsOne get_object kind name os
  finds c =
      let (f, e) = returned (get_object kind name os) (gets.complete kind name os c) in
      let (splits, w) = gets.sound kind name os f e in
      record { found = f; returns = e; splits = splits; is_wanted = w; single = c }

module _ {get_object : (kind name : String) → List Manifest → Outcome Found} {kind name : String}
    {os : List Manifest} (f : IsOne get_object kind name os) where
  single_there : count (wanted kind name) (put f.found f.found.object) ≡ 1
  single_there = sym (ap (count (wanted kind name)) f.splits) ∙ f.single

  -- A change of the one object is a change of the objects that are wanted.
  pub put-only :
      (g : Manifest → Manifest)
      → put f.found (g f.found.object) ≡ map (only (wanted kind name) g) os
  put-only g = sym (
      ap (map (only (wanted kind name) g)) f.splits
      ∙ only_one (wanted kind name) g f.found.before f.found.object f.found.after f.is_wanted
          single_there)

  pub found_All :
      (Q : Manifest → Type 0) → Q f.found.object → All (λ o. wanted kind name o ≡ true → Q o) os
  found_All Q q = subst (All (λ o. wanted kind name o ≡ true → Q o)) (sym f.splits) (
      one_All (wanted kind name) Q f.found.before f.found.object f.found.after f.is_wanted
        single_there q)

  pub All_found : (Q : Manifest → Type 0) → All Q os → Q f.found.object
  All_found Q h =
      All_middle Q f.found.before f.found.object f.found.after (subst (All Q) f.splits h)
