-- ===== src/Framework/Workloads/Stored.antt =====
-- Maps of lists by namespace, all of whose items satisfy a predicate, and what the three packages do with
-- them when every call returns.
use rhobs.Base.{
  ◌≡◌, refl, sym, ap, ◌==◌, text_comparable, Bool-cases, true, false, not, ◌&&◌, ◌||◌,
  if◌then◌else◌, inl, inr, some, String, List, [], ◌∷◌, All, All-mono, arith,
}
use mathlib.Core.Path.{subst}
use rhobs.Base.Dict.{Dict, lookup, insert, lookup-insert}
use rhobs.Framework.{Action, ErrorLists, ret, fail, ◌>>=◌, for_each, is_empty}
use rhobs.Framework.Errors.{Failure}
use rhobs.Framework.Kubernetes.{Duration, is_positive}
use rhobs.Framework.Kubernetes.Laws.{Time}
use rhobs.Framework.Steady.{Done, Meets, Meets-ret, Meets-bind, Meets-else, Meets-for_each}
use rhobs.Framework.Workloads.{items_of}

module _ {A : Type 0} (P : String → A → Type 0) where
  abbrev pub Stored : Dict String (List A) → Type 0
  Stored found = (n : String) → All (P n) (items_of (lookup n found))

  pub Stored-nil : Stored []
  unfolding lookup
  Stored-nil n = tt

  pub Stored-insert :
      (k : String) (items : List A) (found : Dict String (List A))
      → All (P k) items
      → Stored found
      → Stored (insert k items found)
  Stored-insert k items found h rest n =
      let there : items_of (lookup n (insert k items found))
          ≡ items_of (if k == n then some items else lookup n found) =
        ap items_of (lookup-insert n k items found) in
      subst (All (P n)) (sym there) (elim (Bool-cases (k == n)) [
        | inl e ↦ rw e (subst (λ m. All (P m) items) ((text_comparable.equal_iff k n).0 e) h)
        | inr e ↦ rw e (rest n)
      ])

pub is_empty-insert :
    {A : Type 0} (k : String) (v : A) (d : Dict String A) → is_empty (insert k v d) ≡ false
unfolding insert
is_empty-insert k v [] = refl
is_empty-insert k v ((j, w) ∷ d) = ground arith

module _ {W A : Type 0} (t : Time W) (u : W) (P : String → A → Type 0)
    (Ready : String → Type 0) where
  -- A map that was filled.
  abbrev pub Filled : Dict String (List A) → Type 0
  Filled found = Stored P found × (is_empty found ≡ false)

  module _ (loop : Dict String (List A) → List String → Action W (Dict String (List A)))
      (ends : (found : Dict String (List A)) → loop found [] ≡ ret found)
      (turn : (found : Dict String (List A)) (n : String) (namespaces : List String)
        → Ready n
        → ((items : List A)
            → All (P n) items
            → Meets t u Filled (loop (insert n items found) namespaces))
        → Meets t u Filled (loop found (n ∷ namespaces))) where
    loop-Filled :
        (found : Dict String (List A)) (namespaces : List String)
        → Stored P found
        → (is_empty found && is_empty namespaces) ≡ false
        → All Ready namespaces
        → Meets t u Filled (loop found namespaces)
    loop-Filled found [] h e ready = rw (ends found) (Meets-ret t u found (h, ground (arith, e)))
    loop-Filled found (n ∷ namespaces) h e (r, ready) = turn found n namespaces r λ items i.
        loop-Filled (insert n items found) namespaces (Stored-insert P n items found i h)
          (rw (is_empty-insert n items found) refl) ready

    -- The map is stored, and not empty.
    pub store-Filled :
        (k1 k2 : Failure) (namespaces : List String)
        → is_empty namespaces ≡ false
        → All Ready namespaces
        → Meets t u Filled (
            if is_empty namespaces
            then fail k1
            else (loop [] namespaces >>= λ found. if is_empty found then fail k2 else ret found))
    store-Filled k1 k2 namespaces e ready =
        let last : Dict String (List A) → Action W (Dict String (List A)) =
          λ found. if is_empty found then fail k2 else ret found in
        Meets-else t u (fail k1) (loop [] namespaces >>= last) e (
          Meets-bind t u (loop [] namespaces) last
            (loop-Filled [] namespaces (Stored-nil P) e ready)
            λ found h. Meets-else t u (fail k2) (ret found) h.1 (Meets-ret t u found h))

  module _ (f : String → A → Action W ErrorLists)
      (clean : (n : String) (a : A)
        → Ready n
        → P n a
        → Meets t u (λ es. es ≡ ([], [])) (f n a)) where
    -- Every turn of the loops over a filled map adds no error, and the validation returns.
    pub validate-Done :
        (k1 k2 k3 k4 : Failure) (i o : Duration) (namespaces : List String)
        (found : Dict String (List A))
        → is_positive i ≡ true
        → is_positive o ≡ true
        → is_empty namespaces ≡ false
        → All Ready namespaces
        → Filled found
        → Done t u (
            if is_empty namespaces
            then fail k1
            else if is_empty found
            then fail k2
            else if not (is_positive i) || not (is_positive o)
            then fail k3
            else (for_each (λ n. for_each (f n) (items_of (lookup n found))) namespaces
                >>= λ errors.
                    if not (is_empty errors.0) || not (is_empty errors.1) then fail k4 else ret tt))
    validate-Done k1 k2 k3 k4 i o namespaces found pi po ne ready (steady, fe) =
        let turn : String → Action W ErrorLists = λ n. for_each (f n) (items_of (lookup n found)) in
        let verdict : ErrorLists → Action W Unit = λ errors.
          if not (is_empty errors.0) || not (is_empty errors.1) then fail k4 else ret tt in
        let run = for_each turn namespaces >>= verdict in
        let timed = if not (is_positive i) || not (is_positive o) then fail k3 else run in
        Meets-else t u (fail k1) (if is_empty found then fail k2 else timed) ne (
          Meets-else t u (fail k2) timed fe (
            Meets-else t u (fail k3) run (ground (arith, pi, po)) (
              Meets-bind t u (for_each turn namespaces) verdict
                (Meets-for_each t u turn namespaces (
                  All-mono _ _
                    (λ n r.
                      Meets-for_each t u (f n) (items_of (lookup n found)) (
                        All-mono _ _ (λ a p. clean n a r p) (items_of (lookup n found)) (steady n)))
                    namespaces ready))
                λ errors e.
                  Meets-else t u (fail k4) (ret tt) (ground (arith, e)) (Meets-ret t u tt tt))))
