-- ===== src/Mage/Alertmanager/Processed.antt =====
-- The manifests after the post-processing.
use mathlib.Core.Path.{subst}
use rhobs.Base.{
  ℕ, String, ◌≡◌, refl, ap, sym, ◌∙◌, ◌==◌, text_comparable, true, false, some, List, [], ◌∷◌, ◌++◌,
  map, All,
}
use rhobs.Base.Dict.{lookup}
use rhobs.Base.Outcome.{Outcome, ok}
use rhobs.Base.Outcome.Runs.{bound}
use rhobs.Mage.Heap.{Ref, Heap, read, assign, make_map, read-made, IsBelow}
use rhobs.Mage.Gateway.{alert_manager_name}
use rhobs.Mage.Alertmanager.{Manifest, alertmanager_tls_secret}
use rhobs.Mage.Alertmanager.Target.{
  Found, put, with_https, redirect, route, map_if_nil, clone, service_redirect_annotation,
  serving_cert_secret_name_annotation, alertmanager_post_process, issuer_annotations,
}
use rhobs.Mage.Alertmanager.Listed.{
  count, count-map, Gets, IsOne, finds, put-only, found_All, All_found,
}
use rhobs.Mage.Alertmanager.Changed.{
  is_served, is_account, is_set, served, redirected, HasMaps, IsComplete, only-same, All_map,
  map_All,
}
use rhobs.Mage.Alertmanager.Kept.{
  Keeps, Keeps-trans, Keeps-make_map, Keeps-map_if_nil, Keeps-clone, assign-Sets, Same-make_map,
  Same-clone, clone_lem, map_if_nil_lem,
}

-- What the call returns: the references that it makes or finds, and the maps.
pub record Processed (ms : List Manifest) (namespace : String) (h : Heap)
    (x : Outcome (List Manifest × Heap)) : Type 0 where
  pub annotations : Ref
  pub labels : Ref
  pub route_annotations : Ref
  pub after : Heap
  pub returns :
      x
      ≡ ok (
        map (redirected annotations) (map served ms)
            ++ (route namespace labels route_annotations ∷ []),
        after,
      )
  pub certified :
      All
        (λ o.
          is_served o ≡ true
          → lookup serving_cert_secret_name_annotation (read o.annotations after)
            ≡ some alertmanager_tls_secret)
        ms
  pub issued : read route_annotations after ≡ issuer_annotations
  pub redirecting : lookup service_redirect_annotation (read annotations after) ≡ some redirect
  pub labelled : All (λ o. is_set o ≡ true → read labels after ≡ read o.labels after) ms
  pub kept :
      (k : String)
      → (serving_cert_secret_name_annotation == k) ≡ false
      → (service_redirect_annotation == k) ≡ false
      → Keeps k h after

module _ {get_object : (kind name : String) → List Manifest → Outcome Found}
    (gets : Gets get_object) (ms : List Manifest) (namespace : String) (h : Heap)
    (complete : IsComplete ms) (maps : All (HasMaps h) ms) where
  abbrev service : IsOne get_object "Service" alert_manager_name ms
  service = finds gets "Service" alert_manager_name ms complete.one_service

  -- The list once the service has changed.
  abbrev second : List Manifest
  second = put service.found (with_https service.found.object)

  second_lem : second ≡ map served ms
  second_lem = put-only service with_https

  one_account_there : count is_account second ≡ 1
  one_account_there =
      ap (count is_account) second_lem
      ∙ (count-map is_account served (only-same is_account is_served with_https λ o. refl) ms
          ∙ complete.one_account)

  abbrev account : IsOne get_object "ServiceAccount" "" second
  account = finds gets "ServiceAccount" "" second one_account_there

  module _ (r : Ref) where
    -- The list once the account has changed as well.
    abbrev third : List Manifest
    third = put account.found (record account.found.object { annotations = r })

    third_lem : third ≡ map (redirected r) (map served ms)
    third_lem =
        put-only account (λ o. record o { annotations = r }) ∙ ap (map (redirected r)) second_lem

    one_set_there : count is_set third ≡ 1
    one_set_there =
        ap (count is_set) third_lem
        ∙ (count-map is_set (redirected r)
              (only-same is_set is_account (λ o. record o { annotations = r }) λ o. refl)
              (map served ms)
            ∙ (count-map is_set served (only-same is_set is_served with_https λ o. refl) ms
                ∙ complete.one_set))

    abbrev set : IsOne get_object "StatefulSet" "" third
    set = finds gets "StatefulSet" "" third one_set_there

    set_labels : IsBelow set.found.object.labels h
    set_labels =
        All_found set (λ o. IsBelow o.labels h)
          (subst (All (λ o. IsBelow o.labels h)) (sym third_lem) (
            All_map (redirected r) (λ o. IsBelow o.labels h) (λ o. IsBelow o.labels h)
              (λ o b.
                subst (λ l. IsBelow l h)
                  (sym (
                    only-same (λ o. o.labels) is_account (λ o. record o { annotations = r })
                      (λ o. refl) o))
                  b)
              (map served ms)
              (All_map served (HasMaps h) (λ o. IsBelow o.labels h)
                (λ o b.
                  subst (λ l. IsBelow l h)
                    (sym (only-same (λ o. o.labels) is_served with_https (λ o. refl) o)) b.0)
                ms maps)))

  account_annotations : IsBelow account.found.object.annotations h
  account_annotations =
      All_found account (λ o. IsBelow o.annotations h)
        (subst (All (λ o. IsBelow o.annotations h)) (sym second_lem) (
          All_map served (HasMaps h) (λ o. IsBelow o.annotations h)
            (λ o b.
              subst (λ l. IsBelow l h)
                (sym (only-same (λ o. o.annotations) is_served with_https (λ o. refl) o)) b.1)
            ms maps))

  labels-same :
      (l : Ref) (g : Heap)
      → IsBelow l g
      → read (clone l g).0 (make_map issuer_annotations (clone l g).1).1
        ≡ read l (make_map issuer_annotations (clone l g).1).1
  labels-same l g b =
      let (cloned_below, cloned) = clone_lem l g in
      let (below, same) = Same-clone l g l b in
      (Same-make_map issuer_annotations (clone l g).1 (clone l g).0 cloned_below).1
      ∙ (cloned ∙ sym ((Same-make_map issuer_annotations (clone l g).1 l below).1 ∙ same))

  labelled_there :
      (r l : Ref) (g : Heap)
      → read l g ≡ read (set r).found.object.labels g
      → All (λ o. is_set o ≡ true → read l g ≡ read o.labels g) ms
  labelled_there r l g e =
      let Q : Manifest → Type 0 = λ o. is_set o ≡ true → read l g ≡ read o.labels g in
      map_All served Q Q
        (λ o q w.
          q (only-same is_set is_served with_https (λ o'. refl) o ∙ w)
          ∙ ap (λ x. read x g) (only-same (λ o'. o'.labels) is_served with_https (λ o'. refl) o))
        ms
        (map_All (redirected r) Q Q
          (λ o q w.
            q (only-same is_set is_account (λ o'. record o' { annotations = r }) (λ o'. refl) o ∙ w)
            ∙ ap (λ x. read x g)
                (only-same (λ o'. o'.labels) is_account (λ o'. record o' { annotations = r })
                  (λ o'. refl) o))
          (map served ms)
          (subst (All Q) (third_lem r) (found_All (set r) (λ o. read l g ≡ read o.labels g) e)))

  pub alertmanager_post_process-Processed :
      Processed ms namespace h (alertmanager_post_process get_object ms namespace h)
  unfolding alertmanager_post_process
  alertmanager_post_process-Processed =
      let s : Manifest = service.found.object in
      let acc : Manifest = account.found.object in
      let (a, a_lem) =
        All_found service (λ o. is_served o ≡ true → (a : ℕ) × (o.annotations ≡ some a))
          complete.annotated service.is_wanted in
      let s_below : IsBelow s.annotations h = (All_found service (HasMaps h) maps).1 in
      let (h1, e1, same1, set1, keep1) =
        assign-Sets a serving_cert_secret_name_annotation alertmanager_tls_secret h in
      let r : Ref = (map_if_nil acc.annotations h1).0 in
      let h2 : Heap = (map_if_nil acc.annotations h1).1 in
      let (b, r_lem, b_below) =
        map_if_nil_lem acc.annotations h1
          (keep1 service_redirect_annotation refl acc.annotations account_annotations).0 in
      let (h3, e3, same3, set3, keep3) = assign-Sets b service_redirect_annotation redirect h2 in
      let l : Ref = (set r).found.object.labels in
      let h4 : Heap = (clone l h3).1 in
      let h5 : Heap = (make_map issuer_annotations h4).1 in
      let last : (k : String) → Keeps k h3 h5 =
        λ k. Keeps-trans k h3 h4 h5 (Keeps-clone k l h3) (Keeps-make_map k issuer_annotations h4) in
      let rest : (k : String) → (service_redirect_annotation == k) ≡ false → Keeps k h1 h5 = λ k n.
        Keeps-trans k h1 h2 h5 (Keeps-map_if_nil k acc.annotations h1)
          (Keeps-trans k h2 h3 h5 (keep3 k n) (last k)) in
      let key : String = serving_cert_secret_name_annotation in
      let first_kept : (k : String)
          → (key == k) ≡ false
          → (service_redirect_annotation == k) ≡ false
          → Keeps k h h5 =
        λ k n n'. Keeps-trans k h h1 h5 (keep1 k n) (rest k n') in
      record {
        annotations = r;
        labels = (clone l h3).0;
        route_annotations = (make_map issuer_annotations h4).0;
        after = h5;
        returns =
            bound _ service.returns
            ∙ (bound _ (ap (λ x. assign x key alertmanager_tls_secret h) a_lem ∙ e1)
                ∙ (bound _ account.returns
                    ∙ (bound _
                          (ap (λ x. assign x service_redirect_annotation redirect h2) r_lem ∙ e3)
                        ∙ (bound _ (set r).returns
                            ∙ ap
                                (λ xs. ok (
                                  xs
                                      ++ (route namespace (clone l h3).0
                                            (make_map issuer_annotations h4).0
                                          ∷ []),
                                  h5,
                                ))
                                (third_lem r)))));
        certified =
            found_All service
              (λ o. lookup key (read o.annotations h5) ≡ some alertmanager_tls_secret)
              ((rest key refl s.annotations
                  (keep1 service_redirect_annotation refl s.annotations s_below).0).1
                ∙ (ap (λ x. lookup key (read x h1)) a_lem ∙ set1));
        redirecting =
            ap (λ x. lookup service_redirect_annotation (read x h5)) r_lem
            ∙ ((last service_redirect_annotation (some b) (keep3 key refl (some b) b_below).0).1
                ∙ set3);
        issued = read-made issuer_annotations h4;
        labelled = labelled_there r (clone l h3).0 h5 (
            labels-same l h3 (
              (keep3 key refl l
                (Keeps-map_if_nil key acc.annotations h1 l
                  (keep1 service_redirect_annotation refl l (set_labels r)).0).0).0));
        kept = first_kept;
      }
