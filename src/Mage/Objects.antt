-- ===== src/Mage/Objects.antt =====
-- magefiles/lib.go: taking an object out of a list of objects, and the order of template parameters.
use rhobs.Base.{
  ℕ, suc, ◌<◌, ◌≤◌, String, ◌<>◌, ◌≡◌, refl, ap, ◌∙◌, Bool, true, false, not, ◌&&◌, ◌||◌, ◌==◌,
  text_comparable, nat_comparable, Bool-cases, if◌then◌else◌, ◌⊎◌, inl, inr, Option, none, some,
  List, [], ◌∷◌, ◌++◌, any, arith,
}
use mathlib.Core.List.{Perm}
use rhobs.Base.Outcome.{Outcome, ok, panic, ◌>>=◌}
use rhobs.Base.Sort.{StrictWeak, sort_slice, IsOrdered, sort_slice-perm, sort_slice-IsOrdered}
use rhobs.Base.Text.Order.{text_lt, text_lt_asymm, text_lt_cotrans}
use rhobs.Mage.Value.{Fields}

-- The objects of an interface whose method `GetName` is given.
module _ {A : Type 0} (get_name : A → String) (is_typed : A → Bool) (type_name name : String) where
  -- The first loop of `getAndRemoveObject`; `break` ends it at the first object that is kept.
  abbrev search_loop : (found : Bool) (i : ℕ) → List A → Outcome (Option (A × ℕ))
  search_loop found i [] = ok none
  search_loop found i (o ∷ objects) =
      if is_typed o
      then (if not (name == "") && not (get_name o == name)
          then search_loop found (suc i) objects
          else if found
          then panic ("found multiple objects of type " <> type_name)
          else ok (some (o, i)))
      else search_loop found (suc i) objects

  -- The second loop: all objects but the one at an index.
  abbrev others : (at_index i : ℕ) → List A → List A
  others at_index i [] = []
  others at_index i (o ∷ objects) =
      let rest = others at_index (suc i) objects in if i == at_index then rest else o ∷ rest

  abbrev take_out : List A → Option (A × ℕ) → Outcome (A × List A)
  take_out objects none = panic ("could not find object of type " <> type_name)
  take_out objects (some (o, i)) = ok (o, others i 0 objects)

  unfoldable pub get_and_remove_object : List A → Outcome (A × List A)
  get_and_remove_object objects = do found ← search_loop false 0 objects; take_out objects found

  -- An object of the type, with the name if one is given.
  abbrev pub is_wanted : A → Bool
  is_wanted o = is_typed o && (name == "" || get_name o == name)

  search-wanted :
      (i : ℕ) (o : A) (objects : List A)
      → is_wanted o ≡ true
      → search_loop false i (o ∷ objects) ≡ ok (some (o, i))
  search-wanted i o objects h = ground arith

  search-unwanted :
      (i : ℕ) (o : A) (objects : List A)
      → is_wanted o ≡ false
      → search_loop false i (o ∷ objects) ≡ search_loop false (suc i) objects
  search-unwanted i o objects h = ground arith

  others-after : (k i : ℕ) (objects : List A) → k < i → others k i objects ≡ objects
  others-after k i [] h = refl
  others-after k i (o ∷ objects) h = ground (arith, others-after k (suc i) objects)

  others-at : (i : ℕ) (o : A) (objects : List A) → others i i (o ∷ objects) ≡ objects
  others-at i o objects = ground (arith, others-after i (suc i) objects)

  others-before :
      (k i : ℕ) (o : A) (objects : List A)
      → i < k
      → others k i (o ∷ objects) ≡ o ∷ others k (suc i) objects
  others-before k i o objects h = ground arith

  -- The list is split at its first wanted object, whose index is `k` if the list starts at `i`.
  abbrev Split : (i : ℕ) → List A → Type 0
  Split i objects =
      (before : List A) × (o : A) × (rest : List A) × (objects ≡ before ++ o ∷ rest)
      × (any is_wanted before ≡ false)
      × (is_wanted o ≡ true)
      × (k : ℕ) × (search_loop false i objects ≡ ok (some (o, k)))
      × (i ≤ k)
      × (others k i objects ≡ before ++ rest)

  loop-splits :
      (i : ℕ) (objects : List A)
      → Split i objects
        ⊎ ((any is_wanted objects ≡ false) × (search_loop false i objects ≡ ok none))
  loop-splits i [] = inr (refl, refl)
  loop-splits i (o ∷ objects) = elim (Bool-cases (is_wanted o)) [
    | inl h ↦ inl (
      [],
      o,
      objects,
      refl,
      refl,
      h,
      i,
      search-wanted i o objects h,
      omega arith,
      others-at i o objects,
    )
    | inr h ↦ elim (loop-splits (suc i) objects) [
      | inl (before, p, rest, e, none_before, wanted, k, found, ik, left) ↦ inl (
        o ∷ before,
        p,
        rest,
        ap (λ os. o ∷ os) e,
        ground (arith, h, none_before),
        wanted,
        k,
        search-unwanted i o objects h ∙ found,
        omega (arith, ik),
        others-before k i o objects (omega (arith, ik)) ∙ ap (λ os. o ∷ os) left,
      )
      | inr (nothing, missed) ↦
          inr (ground (arith, h, nothing), search-unwanted i o objects h ∙ missed)
    ]
  ]

  -- Taking an object out finds the first one that has the type, and the name if one is given, and
  -- leaves the others in their order; or there is none, and the call panics. It never panics because
  -- there are several.
  pub get_and_remove_object-splits :
      (objects : List A)
      → ((before : List A) × (o : A) × (rest : List A) × (objects ≡ before ++ o ∷ rest)
          × (any is_wanted before ≡ false)
          × (is_wanted o ≡ true)
          × (get_and_remove_object objects ≡ ok (o, before ++ rest)))
        ⊎ ((any is_wanted objects ≡ false)
            × (get_and_remove_object objects
                ≡ panic ("could not find object of type " <> type_name)))
  unfolding get_and_remove_object
  get_and_remove_object-splits objects = elim (loop-splits 0 objects) [
    | inl (before, o, rest, e, none_before, wanted, k, found, ik, left) ↦
        inl (before, o, rest, e, none_before, wanted, rw found (ap (λ os. ok (o, os)) left))
    | inr (nothing, missed) ↦ inr (nothing, rw missed refl)
  ]

-- `params[i].Name < params[j].Name`, of template parameters as their names and the rest.
unfoldable pub name_less : String × Fields → String × Fields → Bool
unfolding text_lt
name_less p q = text_lt p.0 q.0

unfoldable pub sort_template_params : List (String × Fields) → List (String × Fields)
unfolding sort_slice name_less
sort_template_params params = sort_slice name_less params

name_less-StrictWeak : StrictWeak name_less
unfolding name_less
name_less-StrictWeak = record {
  asymm = λ p q. text_lt_asymm p.0 q.0;
  cotrans = λ p q r. text_lt_cotrans p.0 q.0 r.0;
}

-- The sorted template parameters are those that were given, in the order of their names.
pub sort_template_params-IsOrdered :
    (params : List (String × Fields))
    → IsOrdered name_less (sort_template_params params) × Perm (sort_template_params params) params
unfolding sort_template_params
sort_template_params-IsOrdered params =
    (sort_slice-IsOrdered name_less name_less-StrictWeak params, sort_slice-perm name_less params)
