-- ===== src/Mage/Alertmanager/Taken.antt =====
-- The list of manifests without the service monitor.
use rhobs.Base.{
  String, ◌≡◌, refl, ap, ◌∙◌, ◌==◌, text_comparable, Bool, true, false, List, [], ◌∷◌, ◌++◌, All,
  any, any_cong, inl, inr, arith,
}
use rhobs.Base.Outcome.{ok}
use rhobs.Mage.Gateway.{alert_manager_name}
use rhobs.Mage.Objects.{is_wanted, get_and_remove_object, get_and_remove_object-splits}
use rhobs.Mage.Alertmanager.{Manifest}
use rhobs.Mage.Alertmanager.Target.{get_name, is_service_monitor}
use rhobs.Mage.Alertmanager.Listed.{wanted, count, count-append}
use rhobs.Mage.Alertmanager.Changed.{IsComplete}

-- A service monitor is no object of another type.
monitor-wanted :
    (kind name : String) (o : Manifest)
    → is_service_monitor o ≡ true
    → ("ServiceMonitor" == kind) ≡ false
    → wanted kind name o ≡ false
monitor-wanted kind name o e n =
    let same : o.kind ≡ "ServiceMonitor" =
      (text_comparable.equal_iff o.kind "ServiceMonitor").0 e in
    let apart : (o.kind == kind) ≡ false = ap (λ k. k == kind) same ∙ n in ground (arith, apart)

count-rest :
    (p : Manifest → Bool) (before : List Manifest) (o : Manifest) (after : List Manifest)
    → p o ≡ false
    → count p (before ++ after) ≡ count p (before ++ o ∷ after)
count-rest p before o after e =
    ground (arith, count-append p before after, count-append p before (o ∷ after), e)

pub All-rest :
    (Q : Manifest → Type 0) (before : List Manifest) (o : Manifest) (after : List Manifest)
    → All Q (before ++ o ∷ after)
    → Q o × All Q (before ++ after)
All-rest Q [] o after h = h
All-rest Q (x ∷ before) o after (q, h) =
    let (here, rest) = All-rest Q before o after h in (here, (q, rest))

pub IsComplete-rest :
    (before : List Manifest) (o : Manifest) (after : List Manifest)
    → is_service_monitor o ≡ true
    → IsComplete (before ++ o ∷ after)
    → IsComplete (before ++ after)
IsComplete-rest before o after e c = record {
  one_service =
      count-rest _ before o after (monitor-wanted "Service" alert_manager_name o e refl)
      ∙ c.one_service;
  one_account =
      count-rest _ before o after (monitor-wanted "ServiceAccount" "" o e refl) ∙ c.one_account;
  one_set = count-rest _ before o after (monitor-wanted "StatefulSet" "" o e refl) ∙ c.one_set;
  annotated = (All-rest _ before o after c.annotated).1;
}

all_same :
    (ms : List Manifest)
    → All
        (λ o.
          is_wanted get_name is_service_monitor "*v1.ServiceMonitor" "" o ≡ is_service_monitor o)
        ms
all_same [] = tt
all_same (o ∷ ms) = (ground arith, all_same ms)

pub taken :
    (ms : List Manifest)
    → any is_service_monitor ms ≡ true
    → (before : List Manifest) × (o : Manifest) × (after : List Manifest) × (ms
        ≡ before ++ o ∷ after)
      × (is_service_monitor o ≡ true)
      × (get_and_remove_object get_name is_service_monitor "*v1.ServiceMonitor" "" ms
          ≡ ok (o, before ++ after))
taken ms h =
    elim (get_and_remove_object-splits get_name is_service_monitor "*v1.ServiceMonitor" "" ms) [
      | inl (before, o, after, e, _, w, r) ↦ (before, o, after, e, ground (arith, w), r)
      | inr (none_wanted, _) ↦
          let same : any (is_wanted get_name is_service_monitor "*v1.ServiceMonitor" "") ms
              ≡ any is_service_monitor ms =
            any_cong _ _ ms (all_same ms) in
          cc
    ]
