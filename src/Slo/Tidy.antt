-- ===== src/Slo/Tidy.antt =====
-- What the two passes leave of the labels of rules: their severity, their windows, and what is pruned.
use mathlib.Core.Path.{subst}
use rhobs.Base.{
  ℕ, String, ◌≡◌, refl, sym, ap, ◌∙◌, ◌==◌, text_comparable, false, if◌then◌else◌, none, some, List,
  ◌∷◌, any, All, arith,
}
use rhobs.Base.Dict.{lookup}
use rhobs.Base.Outcome.{ok}
use rhobs.Mage.Heap.{Heap, read}
use rhobs.Slo.Rules.{Rule, RuleGroup, customise_groups}
use rhobs.Slo.Passes.{Labels, customised, lowered_severity}
use rhobs.Slo.Labels.{HasMap, rules_of, alerts_at, applied, final, customise_groups-final}
use rhobs.Slo.Lookups.{or_else, kept_by_lower, long_window, short_window}
use rhobs.Slo.Folds.{
  lookup-applied, guarded, applied-guarded, applied-kept, eased, is_absent, lowers, lookup-lowers,
  applied-lowers, is_alert, served, served_again, customised-severity, customised-service,
  customised-stripped, customised-long, customised-short, customised-long_window,
  customised-short_window, applied-moved,
}

-- What is left of the labels `d` in the map of rules with these alerts.
pub record IsTidy (alerts : List String) (d after : Labels) : Type 0 where
  pub severity :
      lookup "severity" after
      ≡ (if any is_absent alerts then some "medium" else eased (lookup "severity" d))
  pub long : lookup "long" after ≡ none
  pub short : lookup "short" after ≡ none
  pub long_renamed : lookup long_window after ≡ or_else (lookup "long" d) (lookup long_window d)
  pub short_renamed : lookup short_window after ≡ or_else (lookup "short" d) (lookup short_window d)
  pub le : lookup "le" after ≡ (if any is_alert alerts then none else lookup "le" d)
  pub client : lookup "client" after ≡ (if any is_alert alerts then none else lookup "client" d)
  pub container :
      lookup "container" after ≡ (if any is_alert alerts then none else lookup "container" d)
  pub service :
      lookup "service" after
      ≡ (if any is_alert alerts then served (lookup "service" d) else lookup "service" d)

lookup-lowered_all :
    (k : String) (bs : List String) (d : Labels)
    → ("severity" == k) ≡ false
    → lookup k (applied lowered_severity bs d) ≡ lookup k d
lookup-lowered_all k bs d e =
    lookup-applied k lowered_severity (λ b x. x) (λ b d. kept_by_lower k b d e) bs d
    ∙ applied-kept bs (lookup k d)

lookup-stripped_all :
    (k : String) (bs : List String) (d : Labels)
    → ("severity" == k) ≡ false
    → ((b : String) (d : Labels)
        → lookup k (customised b d) ≡ guarded is_alert (λ x. none) b (lookup k d))
    → lookup k (final bs d) ≡ (if any is_alert bs then none else lookup k d)
lookup-stripped_all k bs d e step =
    lookup-lowered_all k bs (applied customised bs d) e
    ∙ lookup-applied k customised (guarded is_alert (λ x. none)) step bs d
    ∙ applied-guarded is_alert (λ x. none) (λ x. refl) bs (lookup k d)

final-IsTidy : (b : String) (bs : List String) (d : Labels) → IsTidy (b ∷ bs) d (final (b ∷ bs) d)
final-IsTidy b bs d =
    let alerts = b ∷ bs in
    let d1 = applied customised alerts d in
    let (long_gone, long_kept) =
      applied-moved "long" long_window customised-long customised-long_window b bs d in
    let (short_gone, short_kept) =
      applied-moved "short" short_window customised-short customised-short_window b bs d in
    record {
      severity =
          lookup-applied "severity" lowered_severity lowers lookup-lowers alerts d1
          ∙ ap (applied lowers alerts) (
              lookup-applied "severity" customised (λ b x. x) customised-severity alerts d
              ∙ applied-kept alerts (lookup "severity" d))
          ∙ applied-lowers b bs (lookup "severity" d);
      long = lookup-lowered_all "long" alerts d1 refl ∙ long_gone;
      short = lookup-lowered_all "short" alerts d1 refl ∙ short_gone;
      long_renamed = lookup-lowered_all long_window alerts d1 refl ∙ long_kept;
      short_renamed = lookup-lowered_all short_window alerts d1 refl ∙ short_kept;
      le =
          lookup-stripped_all "le" alerts d refl
            λ b d. customised-stripped "le" b d refl refl refl refl refl refl;
      client =
          lookup-stripped_all "client" alerts d refl
            λ b d. customised-stripped "client" b d refl refl refl refl refl refl;
      container =
          lookup-stripped_all "container" alerts d refl
            λ b d. customised-stripped "container" b d refl refl refl refl refl refl;
      service =
          lookup-lowered_all "service" alerts d1 refl
          ∙ lookup-applied "service" customised (guarded is_alert served) customised-service alerts
              d
          ∙ applied-guarded is_alert served served_again alerts (lookup "service" d);
    }

-- The maps of all rules, in one heap and in another.
abbrev pub AllTidy : Heap → Heap → List Rule → Type 0
AllTidy h g rs =
    (a : ℕ) (b : String) (bs : List String)
    → alerts_at a rs ≡ b ∷ bs
    → IsTidy (b ∷ bs) (read (some a) h) (read (some a) g)

-- After the two passes of `makePrometheusRule`, whose rules may share their maps of labels and of which only
-- a rule of the alert SLOMetricAbsent must have one that is not nil: no rule keeps the severity critical or
-- warning, which have become high and medium, any other severity is kept, and where one of the rules
-- that have a map is of the alert SLOMetricAbsent, its severity is medium. No rule has a label `long` or
-- `short`, whose values are those of the labels with the long names. The map of an alert, which is a rule
-- with a name of an alert, has no label `le`, `client` or `container`, and its service is that of the
-- API where it was the Alertmanager's; a map that only other rules have keeps these labels.
pub customise_groups-AllTidy :
    (grp : List RuleGroup) (h g : Heap)
    → All HasMap (rules_of grp)
    → customise_groups grp h ≡ ok g
    → AllTidy h g (rules_of grp)
customise_groups-AllTidy grp h g m e a b bs alerts =
    let (g', e', labelled) = customise_groups-final grp h m in
    let same : g' ≡ g = ground (arith, e, e') in
    let here : read (some a) g ≡ final (b ∷ bs) (read (some a) h) =
      sym (ap (read (some a)) same) ∙ labelled a ∙ ap (λ l. final l (read (some a) h)) alerts in
    subst (IsTidy (b ∷ bs) (read (some a) h)) (sym here) (final-IsTidy b bs (read (some a) h))
