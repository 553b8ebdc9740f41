-- ===== src/Mage/Alertmanager/Kept.antt =====
-- What the changes of the maps leave as it was.
use mathlib.Core.Path.{subst}
use rhobs.Base.{
  ℕ, ◌≡◌, refl, ap, ◌∙◌, ◌==◌, nat_comparable, text_comparable, false, String, ==_refl, Bool-cases,
  inl, inr, none, some, arith,
}
use rhobs.Base.Dict.{Dict, lookup, insert, lookup-insert}
use rhobs.Base.Outcome.{Outcome, ok}
use rhobs.Mage.Heap.{
  Ref, Heap, read, make_map, assign, IsBelow, assign-returned, assign-fresh, read-make_map,
  read-made,
}
use rhobs.Mage.Alertmanager.Target.{map_if_nil, clone}

-- The value of a key in the maps that are there is what it was.
abbrev pub Keeps : (k : String) → Heap → Heap → Type 0
Keeps k h g = (q : Ref) → IsBelow q h → IsBelow q g × (lookup k (read q g) ≡ lookup k (read q h))

pub Keeps-trans : (k : String) (h g f : Heap) → Keeps k h g → Keeps k g f → Keeps k h f
Keeps-trans k h g f first second q b =
    let (c, e) = first q b in let (d, e') = second q c in (d, e' ∙ e)

pub Keeps-make_map : (k : String) (d : Dict String String) (h : Heap) → Keeps k h (make_map d h).1
unfolding read make_map
Keeps-make_map k d h none b = (tt, refl)
Keeps-make_map k d h (some a) b = (omega (arith, b), ap (lookup k) (read-make_map (some a) d h b))

pub Keeps-map_if_nil : (k : String) (r : Ref) (h : Heap) → Keeps k h (map_if_nil r h).1
Keeps-map_if_nil k none h = Keeps-make_map k _ h
Keeps-map_if_nil k (some a) h = λ q b. (b, refl)

pub Keeps-clone : (k : String) (r : Ref) (h : Heap) → Keeps k h (clone r h).1
Keeps-clone k none h = λ q b. (b, refl)
Keeps-clone k (some a) h = Keeps-make_map k _ h

-- An assignment to a map that is there returns; it sets the key and keeps the others.
abbrev pub Sets : (a : ℕ) (k v : String) → Heap → Outcome Heap → Type 0
Sets a k v h x =
    (g : Heap) × (x ≡ ok g)
    × (g.fresh ≡ h.fresh)
    × (lookup k (read (some a) g) ≡ some v)
    × ((j : String) → (k == j) ≡ false → Keeps j h g)

module _ (a : ℕ) (k v : String) (h g : Heap) (same : g.fresh ≡ h.fresh)
    (here : read (some a) g ≡ insert k v (read (some a) h))
    (there : (b : ℕ) → (a == b) ≡ false → read (some b) g ≡ read (some b) h) where
  others-Keeps : (j : String) → (k == j) ≡ false → Keeps j h g
  unfolding read
  others-Keeps j apart none b = (tt, refl)
  others-Keeps j apart (some c) b = elim (Bool-cases (a == c)) [
    | inl e ↦
        let one : a ≡ c = (nat_comparable.equal_iff a c).0 e in
        let moved : lookup j (read (some a) g) ≡ lookup j (read (some a) h) =
          ap (lookup j) here ∙ (lookup-insert j k v (read (some a) h) ∙ rw apart refl) in
        (
          omega (arith, b, same),
          subst (λ x. lookup j (read (some x) g) ≡ lookup j (read (some x) h)) one moved,
        )
    | inr e ↦ (omega (arith, b, same), ap (lookup j) (there c e))
  ]

pub assign-Sets : (a : ℕ) (k v : String) (h : Heap) → Sets a k v h (assign (some a) k v h)
assign-Sets a k v h =
    let (g, e, here, there) = assign-returned k v a h in
    let same : g.fresh ≡ h.fresh = assign-fresh k v a h g e in
    (
      g,
      e,
      same,
      ap (lookup k) here ∙ (lookup-insert k k v (read (some a) h) ∙ rw (==_refl k) refl),
      others-Keeps a k v h g same here there,
    )

-- What is read in a map that is there is what it was.
abbrev pub Same : Heap → Heap → Type 0
Same h g = (q : Ref) → IsBelow q h → IsBelow q g × (read q g ≡ read q h)

pub Same-make_map : (d : Dict String String) (h : Heap) → Same h (make_map d h).1
unfolding make_map
Same-make_map d h none b = (tt, read-make_map none d h b)
Same-make_map d h (some a) b = (omega (arith, b), read-make_map (some a) d h b)

pub Same-clone : (r : Ref) (h : Heap) → Same h (clone r h).1
Same-clone none h = λ q b. (b, refl)
Same-clone (some a) h = Same-make_map _ h

pub clone_lem :
    (r : Ref) (h : Heap)
    → IsBelow (clone r h).0 (clone r h).1 × (read (clone r h).0 (clone r h).1 ≡ read r h)
unfolding make_map
clone_lem none h = (tt, refl)
clone_lem (some a) h = (omega arith, read-made (read (some a) h) h)

pub map_if_nil_lem :
    (r : Ref) (h : Heap)
    → IsBelow r h
    → (a : ℕ) × ((map_if_nil r h).0 ≡ some a) × IsBelow (some a) (map_if_nil r h).1
unfolding make_map
map_if_nil_lem none h b = (h.fresh, refl, omega arith)
map_if_nil_lem (some a) h b = (a, refl, b)
