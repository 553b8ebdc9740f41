-- ===== src/Mage/Alertmanager/Built.antt =====
-- What the targets of the Alertmanager generate.
use mathlib.Core.Path.{subst}
use rhobs.Base.{
  ℕ, String, ◌≡◌, refl, ap, sym, ◌∙◌, text_comparable, true, some, List, [], ◌∷◌, ◌++◌, map, All,
  All-mono, any,
}
use rhobs.Base.Dict.{lookup}
use rhobs.Base.Outcome.{Outcome, ok}
use rhobs.Base.Outcome.Runs.{bound}
use rhobs.Mage.Heap.{Ref, Heap, read, assign, IsBelow}
use rhobs.Mage.Objects.{get_and_remove_object}
use rhobs.Mage.Gateway.Monitor.{
  openshift_customer_monitoring_label, openshift_cluster_monitoring_label_value,
}
use rhobs.Mage.Alertmanager.{
  Manifest, alertmanager_tls_secret, AlertManagerOptions, AlertManagerStatefulSet,
  alertmanager_kubernetes, alert_manager_options, default_manifest_options,
}
use rhobs.Mage.Alertmanager.Target.{
  Found, Generated, redirect, route, service_redirect_annotation, alertmanager_template,
  serving_cert_secret_name_annotation, service_monitor_template, alertmanager_post_process,
  issuer_annotations, get_name, is_service_monitor, build_alertmanager, alertmanager_contents,
  monitor_contents, alert_encoder, post_process_service_monitor,
}
use rhobs.Mage.Alertmanager.Listed.{Gets}
use rhobs.Mage.Alertmanager.Kept.{assign-Sets}
use rhobs.Mage.Alertmanager.Changed.{is_served, is_set, served, redirected, HasMaps, IsComplete}
use rhobs.Mage.Alertmanager.Taken.{All-rest, IsComplete-rest, taken}
use rhobs.Mage.Alertmanager.Processed.{Processed, alertmanager_post_process-Processed}

-- What the target needs of the manifests that the library makes, and of their maps.
pub record IsBuildable (ms : List Manifest) (h : Heap) : Type 0 where
  pub monitored : any is_service_monitor ms ≡ true
  pub monitor_labels : All (λ o. is_service_monitor o ≡ true → (a : ℕ) × (o.labels ≡ some a)) ms
  pub complete : IsComplete ms
  pub maps : All (HasMaps h) ms

-- What is generated: the service monitor that is taken out, the other manifests, and the maps when
-- they are encoded.
pub record IsBuilt (ms : List Manifest) (namespace : String) (dir : List String)
    (x : Outcome Generated) : Type 0 where
  pub before : List Manifest
  pub monitor : Manifest
  pub after : List Manifest
  pub splits : ms ≡ before ++ monitor ∷ after
  pub typed : is_service_monitor monitor ≡ true
  pub annotations : Ref
  pub labels : Ref
  pub route_annotations : Ref
  pub final : Heap
  pub returns :
      x
      ≡ ok (record {
        main = record {
          dir = dir;
          name = alertmanager_template;
          contents =
              alertmanager_contents
                (map (redirected annotations) (map served (before ++ after))
                  ++ (route namespace labels route_annotations ∷ []))
                final;
        };
        replaced = alert_encoder;
        monitor = record {
          dir = dir;
          name = service_monitor_template;
          contents = monitor_contents monitor namespace final;
        };
      })
  pub scraped :
      lookup openshift_customer_monitoring_label (read monitor.labels final)
      ≡ some openshift_cluster_monitoring_label_value
  pub certified :
      All
        (λ o.
          is_served o ≡ true
          → lookup serving_cert_secret_name_annotation (read o.annotations final)
            ≡ some alertmanager_tls_secret)
        (before ++ after)
  pub redirecting : lookup service_redirect_annotation (read annotations final) ≡ some redirect
  pub labelled :
      All (λ o. is_set o ≡ true → read labels final ≡ read o.labels final) (before ++ after)
  pub issued : read route_annotations final ≡ issuer_annotations

monitor_processed :
    (o : Manifest) (namespace : String) (a : ℕ) (h g : Heap)
    → o.labels ≡ some a
    → assign (some a) openshift_customer_monitoring_label openshift_cluster_monitoring_label_value h
      ≡ ok g
    → post_process_service_monitor o namespace h ≡ ok (monitor_contents o namespace, g)
unfolding post_process_service_monitor
monitor_processed o namespace a h g e e' = bound _ (
    ap
      (λ r. assign r openshift_customer_monitoring_label openshift_cluster_monitoring_label_value h)
      e
    ∙ e')

module _ {get_object : (kind name : String) → List Manifest → Outcome Found}
    (gets : Gets get_object) (namespace : String) (dir : List String) (h : Heap) where
  split-IsBuilt :
      (before : List Manifest) (o : Manifest) (after : List Manifest)
      → is_service_monitor o ≡ true
      → get_and_remove_object get_name is_service_monitor "*v1.ServiceMonitor" ""
          (before ++ o ∷ after)
        ≡ ok (o, before ++ after)
      → (a : ℕ) → o.labels ≡ some a
      → IsBuildable (before ++ o ∷ after) h
      → IsBuilt
          (before ++ o ∷ after)
          namespace
          dir
          (build_alertmanager get_object (before ++ o ∷ after) namespace dir h)
  unfolding build_alertmanager
  split-IsBuilt before o after typed out a a_lem b =
      let key : String = openshift_customer_monitoring_label in
      let (o_maps, rest_maps) = All-rest (HasMaps h) before o after b.maps in
      let (h1, e1, same1, set1, keep1) =
        assign-Sets a key openshift_cluster_monitoring_label_value h in
      let kept : (q : Ref) → IsBelow q h → IsBelow q h1 =
        λ q below. (keep1 service_redirect_annotation refl q below).0 in
      let done : Processed (before ++ after) namespace h1
          (alertmanager_post_process get_object (before ++ after) namespace h1) =
        alertmanager_post_process-Processed gets (before ++ after) namespace h1
          (IsComplete-rest before o after typed b.complete)
          (All-mono _ _ (λ x m. (kept x.labels m.0, kept x.annotations m.1)) (before ++ after)
            rest_maps) in
      record {
        before = before;
        monitor = o;
        after = after;
        splits = refl;
        typed = typed;
        annotations = done.annotations;
        labels = done.labels;
        route_annotations = done.route_annotations;
        final = done.after;
        returns =
            bound _ out
            ∙ (bound _ (monitor_processed o namespace a h h1 a_lem e1) ∙ bound _ done.returns);
        scraped =
            (done.kept key refl refl o.labels (kept o.labels o_maps.0)).1
            ∙ (ap (λ x. lookup key (read x h1)) a_lem ∙ set1);
        certified = done.certified;
        redirecting = done.redirecting;
        labelled = done.labelled;
        issued = done.issued;
      }

  pub build_alertmanager-IsBuilt :
      (ms : List Manifest)
      → IsBuildable ms h
      → IsBuilt ms namespace dir (build_alertmanager get_object ms namespace dir h)
  build_alertmanager-IsBuilt ms b =
      let (before, o, after, e, typed, out) = taken ms b.monitored in
      let there : IsBuildable (before ++ o ∷ after) h = subst (λ x. IsBuildable x h) e b in
      let (a, a_lem) = (All-rest _ before o after there.monitor_labels).0 typed in
      subst (λ x. IsBuilt x namespace dir (build_alertmanager get_object x namespace dir h)) (sym e)
        (split-IsBuilt before o after typed
          (ap (get_and_remove_object get_name is_service_monitor "*v1.ServiceMonitor" "") (sym e)
            ∙ out)
          a a_lem there)

-- What the library makes for the target of an environment, and the maps then.
abbrev pub library_manifests :
    (default_options : AlertManagerOptions)
    → (AlertManagerOptions → (namespace image_tag : String) → AlertManagerStatefulSet)
    → (AlertManagerOptions → AlertManagerStatefulSet → Heap → List Manifest × Heap)
    → (namespace : String) → Heap
    → List Manifest × Heap
library_manifests default_options new_alert_manager objects namespace h =
    let (opts, sts) =
      alertmanager_kubernetes new_alert_manager (alert_manager_options default_options)
        (default_manifest_options namespace) in
    objects opts sts h
