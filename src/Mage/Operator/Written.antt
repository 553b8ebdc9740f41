-- ===== src/Mage/Operator/Written.antt =====
-- The files of the operator: no object is lost between its list and the encoder.
use rhobs.Base.{String, ◌≡◌, ap, ◌∙◌, ◌⊎◌, inl, inr, List, [], ◌∷◌}
use rhobs.Base.Outcome.{ok, ◌>>=◌}
use rhobs.Mage.Value.{Object}
use rhobs.Mage.OperatorCr.{template, documents}
use rhobs.Mage.OperatorCr.Written.{first_items-length}
use rhobs.Mage.Operator.Crds.{
  Response, Fallible, components, crd_ref_stage, crds, local_file, stage_crds, stage_ends,
  local_crds, local_ends,
}
use rhobs.Mage.Operator.Fetched.{AllFetched, OneMissed, crds-ends}

module _ {W : Type 0} (get : String → W → Fallible Response × W) (close : Response → W → W)
    (decode : String → Fallible Object) where
  abbrev fetch : W → Fallible (List Object) × W
  fetch = crds get close decode crd_ref_stage

  stage_step :
      (w : W) (r : Fallible (List Object)) (after : W)
      → fetch w ≡ (r, after)
      → stage_crds get close decode w ≡ (stage_ends get close decode r, after)
  unfolding stage_crds
  stage_step w r after e = ap (λ x. (stage_ends get close decode x.0, x.1)) e

  local_step :
      (w : W) (r : Fallible (List Object)) (after : W)
      → fetch w ≡ (r, after)
      → local_crds get close decode w ≡ (local_ends get close decode r, after)
  unfolding local_crds
  local_step w r after e = ap (λ x. (local_ends get close decode x.0, x.1)) e

  -- Both environments fetch the definitions of one commit, of the stage environment, and write those of all
  -- five components, as they were fetched and decoded one after the other, in their order: a
  -- template in the one, documents in the other, in a file of the same name in the directory of the bundle
  -- of the environment. Or a component is missed, and both return its error and write nothing. The local
  -- one, which encodes the objects by their index, does not panic.
  pub crds_files-written :
      (w : W)
      → ((objs : List Object) × (after : W) × AllFetched get close decode crd_ref_stage components w
            objs after
          × (stage_crds get close decode w ≡ (
            inr (record {
              dir = "resources" ∷ "services" ∷ "bundle" ∷ "staging" ∷ [];
              name = "thanos-operator-crds.yaml";
              contents = template "thanos-operator-crds" objs [];
            }),
            after,
          ))
          × (local_crds get close decode w ≡ (
            ok (
                inr (record {
                  dir = "resources" ∷ "services" ∷ "bundle" ∷ "local" ∷ [];
                  name = "thanos-operator-crds.yaml";
                  contents = documents objs;
                })),
            after,
          )))
        ⊎ ((e : String) × (after : W) × OneMissed get close decode crd_ref_stage components w e
              after
            × (stage_crds get close decode w ≡ (inl e, after))
            × (local_crds get close decode w ≡ (ok (inl e), after)))
  crds_files-written w = elim (crds-ends get close decode crd_ref_stage w) [
    | inl (objs, after, done, five, fetched) ↦ inl (
      objs,
      after,
      fetched,
      stage_step w (inr objs) after done,
      local_step w (inr objs) after done
          ∙ ap (λ x. ((x >>= λ items. ok (inr (local_file get close decode items))), after))
              (first_items-length 5 objs five),
    )
    | inr (e, after, done, missed) ↦
        inr (e, after, missed, stage_step w (inl e) after done, local_step w (inl e) after done)
  ]
