-- ===== src/Mage/OperatorCr/Generated.antt =====
-- What `OperatorCR` needs of the maps, and which objects it generates.
use rhobs.Base.{String, ◌≡◌, Bool, true, false, List, [], ◌∷◌, ◌++◌, map, all, if◌then◌else◌}
use mathlib.Core.List.{map-append}
use rhobs.Base.Outcome.Runs.{Runs, Runs-append, Runs-ok}
use rhobs.Mage.Value.{Object}
use rhobs.Mage.Params.{TemplateMaps}
use rhobs.Mage.Params.Lookup.{Need, meets}
use rhobs.Mage.Cr.Store.{store_cr}
use rhobs.Mage.Cr.Query.{query_cr, route, with_oauth}
use rhobs.Mage.Cr.Compact.{default_compact, telemeter_compact, compact_cr}
use rhobs.Mage.Cr.Compact
use rhobs.Mage.Cr.Needs.{
  Identity, identity, receive_cr_needs, query_needs, ruler_cr_needs, default_compact_needs,
  telemeter_compact_needs, receive_cr-Runs, query-Runs, ruler_cr-Runs, default_compact-Runs,
  telemeter_compact-Runs,
}
use rhobs.Mage.Cr.Needs.Stores.{
  store0to2w_needs, store2wto90d_needs, store90dplus_needs, store_default_needs, store0to2w-Runs,
  store2wto90d-Runs, store90dplus-Runs, store_default-Runs,
}
use rhobs.Mage.OperatorCr.{stage_objects, local_objects}

abbrev pub Identities : List Identity → List Object → Type 0
Identities ids objs = map identity objs ≡ ids

abbrev store_needs : List Need
store_needs =
    store0to2w_needs ++ (store2wto90d_needs ++ (store90dplus_needs ++ (store_default_needs ++ [])))

abbrev compact_needs : List Need
compact_needs = default_compact_needs ++ (telemeter_compact_needs ++ [])

module _ (namespace : String) where
  abbrev store_identities : List Identity
  store_identities =
      ("ThanosStore", "telemeter-0to2w", namespace)
      ∷ ("ThanosStore", "telemeter-2wto90d", namespace)
      ∷ ("ThanosStore", "telemeter-90dplus", namespace)
      ∷ ("ThanosStore", "default", namespace)
      ∷ []

  abbrev query_identities : Bool → List Identity
  query_identities oauth =
      if oauth
      then ("Route", "thanos-query-frontend-rhobs", namespace)
        ∷ ("ThanosQuery", "rhobs", namespace)
        ∷ []
      else ("ThanosQuery", "rhobs", namespace) ∷ []

  abbrev compact_identities : List Identity
  compact_identities =
      ("ThanosCompact", "rhobs", namespace) ∷ ("ThanosCompact", "telemeter", namespace) ∷ []

module _ (namespace : String) (m : TemplateMaps) where
  pub store_cr-Runs :
      Runs
        (all (meets m) store_needs)
        (Identities (store_identities namespace))
        (store_cr namespace m)
  unfolding store_cr
  store_cr-Runs =
      Runs-append (meets m) store0to2w_needs
        (store2wto90d_needs ++ (store90dplus_needs ++ (store_default_needs ++ []))) _ _
        (store0to2w-Runs namespace m)
        λ a p.
          Runs-append (meets m) store2wto90d_needs
            (store90dplus_needs ++ (store_default_needs ++ [])) _ _ (store2wto90d-Runs namespace m)
            λ b q.
              Runs-append (meets m) store90dplus_needs (store_default_needs ++ []) _ _
                (store90dplus-Runs namespace m)
                λ c r.
                  Runs-append (meets m) store_default_needs [] _ _ (store_default-Runs namespace m)
                    λ d s. Runs-ok _ cc

  query_identity :
      (oauth : Bool) (q : Object)
      → identity q ≡ ("ThanosQuery", "rhobs", namespace)
      → Identities
          (query_identities namespace oauth)
          (if oauth then route namespace ∷ with_oauth namespace q ∷ [] else q ∷ [])
  query_identity true q h = cc
  query_identity false q h = cc

  pub query_cr-Runs :
      (oauth : Bool)
      → Runs
          (all (meets m) (query_needs ++ []))
          (Identities (query_identities namespace oauth))
          (query_cr namespace m oauth)
  unfolding query_cr
  query_cr-Runs oauth =
      Runs-append (meets m) query_needs [] _ _ (query-Runs namespace m)
        λ q h. Runs-ok _ (query_identity oauth q h)

  compact_identity :
      (oauth : Bool) (d t : Object)
      → identity d ≡ ("ThanosCompact", "rhobs", namespace)
      → identity t ≡ ("ThanosCompact", "telemeter", namespace)
      → Identities (compact_identities namespace) (
          (if oauth then Compact.with_oauth namespace "thanos-compact-rhobs" d else d)
          ∷ (if oauth then Compact.with_oauth namespace "thanos-compact-telemeter" t else t)
          ∷ [])
  compact_identity true d t h k = cc
  compact_identity false d t h k = cc

  compact_cr-Runs :
      (oauth : Bool)
      → Runs
          (all (meets m) compact_needs)
          (Identities (compact_identities namespace))
          (compact_cr namespace m oauth)
  unfolding compact_cr
  compact_cr-Runs oauth =
      Runs-append (meets m) default_compact_needs (telemeter_compact_needs ++ []) _ _
        (default_compact-Runs namespace m)
        λ d h.
          Runs-append (meets m) telemeter_compact_needs [] _ _ (telemeter_compact-Runs namespace m)
            λ t k. Runs-ok _ (compact_identity oauth d t h k)

-- The parameters that the stage environment looks up, in the order of the calls.
abbrev pub stage_needs : List Need
stage_needs = receive_cr_needs ++ ((query_needs ++ []) ++ (ruler_cr_needs ++ (store_needs ++ [])))

abbrev pub local_needs : List Need
local_needs =
    receive_cr_needs
    ++ ((query_needs ++ []) ++ (ruler_cr_needs ++ (compact_needs ++ (store_needs ++ []))))

abbrev pub stage_identities : String → List Identity
stage_identities namespace =
    (("ThanosReceive", "rhobs", namespace) ∷ [])
    ++ (query_identities namespace true
        ++ ((("ThanosRuler", "rhobs", namespace) ∷ []) ++ store_identities namespace))

abbrev pub local_identities : String → List Identity
local_identities namespace =
    (("ThanosReceive", "rhobs", namespace) ∷ [])
    ++ (query_identities namespace false
        ++ ((("ThanosRuler", "rhobs", namespace) ∷ [])
            ++ (compact_identities namespace ++ store_identities namespace)))

map2 :
    {A B : Type 0} (f : A → B) (xs ys : List A) (us vs : List B)
    → map f xs ≡ us
    → map f ys ≡ vs
    → map f (xs ++ ys) ≡ us ++ vs
map2 f xs ys us vs h k = rw (map-append f xs ys) cc

one : (x : Object) (u : Identity) → identity x ≡ u → map identity (x ∷ []) ≡ u ∷ []
one x u h = cc

-- Stage.OperatorCR returns its objects exactly if every parameter that the generators look up is in
-- the map that it is looked up in, and then they are the receive, the route, the query, the ruler
-- and the four stores, each with its name and in the namespace of the environment.
pub stage_objects-Runs :
    (namespace : String) (m : TemplateMaps)
    → Runs
        (all (meets m) stage_needs)
        (Identities (stage_identities namespace))
        (stage_objects namespace m)
unfolding stage_objects
stage_objects-Runs namespace m =
    Runs-append (meets m) receive_cr_needs
      ((query_needs ++ []) ++ (ruler_cr_needs ++ (store_needs ++ []))) _ _
      (receive_cr-Runs namespace m)
      λ r h.
        Runs-append (meets m) (query_needs ++ []) (ruler_cr_needs ++ (store_needs ++ [])) _ _
          (query_cr-Runs namespace m true)
          λ q i.
            Runs-append (meets m) ruler_cr_needs (store_needs ++ []) _ _ (ruler_cr-Runs namespace m)
              λ u j. Runs-append (meets m) store_needs [] _ _ (store_cr-Runs namespace m) λ s k.
                Runs-ok _ (
                  map2 identity (r ∷ []) _ _ _ (one r _ h)
                    (map2 identity q _ _ _ i (map2 identity (u ∷ []) s _ _ (one u _ j) k)))

-- Local.OperatorCR returns its objects exactly if every parameter that the generators look up is in
-- the map that it is looked up in, and then they are the receive, the query, the ruler, the two
-- compactors and the four stores, each with its name and in the namespace of the environment.
pub local_objects-Runs :
    (namespace : String) (m : TemplateMaps)
    → Runs
        (all (meets m) local_needs)
        (Identities (local_identities namespace))
        (local_objects namespace m)
unfolding local_objects
local_objects-Runs namespace m =
    Runs-append (meets m) receive_cr_needs
      ((query_needs ++ []) ++ (ruler_cr_needs ++ (compact_needs ++ (store_needs ++ [])))) _ _
      (receive_cr-Runs namespace m)
      λ r h.
        Runs-append (meets m) (query_needs ++ [])
          (ruler_cr_needs ++ (compact_needs ++ (store_needs ++ []))) _ _
          (query_cr-Runs namespace m false)
          λ q i.
            Runs-append (meets m) ruler_cr_needs (compact_needs ++ (store_needs ++ [])) _ _
              (ruler_cr-Runs namespace m)
              λ u j.
                Runs-append (meets m) compact_needs (store_needs ++ []) _ _
                  (compact_cr-Runs namespace m false)
                  λ c l. Runs-append (meets m) store_needs [] _ _ (store_cr-Runs namespace m) λ s k.
                    Runs-ok _ (
                      map2 identity (r ∷ []) _ _ _ (one r _ h) (
                        map2 identity q _ _ _ i
                          (map2 identity (u ∷ []) _ _ _ (one u _ j) (map2 identity c s _ _ l k))))
