-- ===== src/Slo/Lookups.antt =====
-- What each step of the two passes does to one label.
use rhobs.Base.{
  String, ◌≡◌, refl, ap, ◌∙◌, ◌==◌, text_comparable, false, not, Bool-cases, if◌then◌else◌, inl,
  inr, Option, none, some, arith,
}
use rhobs.Base.Dict.{lookup, insert, erase, lookup-insert, lookup-erase}
use rhobs.Slo.Passes.{
  Labels, renamed, moved_in, pruned, hacked_in, stripped, customised, lowered_severity, lowered_in,
}

abbrev pub Looked : Type 0
Looked = Option String

abbrev pub moved_at : (k old new : String) → Looked → Looked → Looked
moved_at k old new none x = x
moved_at k old new (some v) x = if old == k then none else if new == k then some v else x

pub lookup-renamed :
    (k old new : String) (d : Labels)
    → lookup k (renamed old new d) ≡ moved_at k old new (lookup old d) (lookup k d)
lookup-renamed k old new d = at_value (lookup old d)
  where
    at_value : (o : Looked) → lookup k (moved_in old new d o) ≡ moved_at k old new o (lookup k d)
    at_value none = refl
    at_value (some v) = ground (arith, lookup-erase k old (insert new v d), lookup-insert k new v d)

abbrev pub stripped_at : (k : String) → Looked → Looked
stripped_at k x =
    if "container" == k then none else if "client" == k then none else if "le" == k then none else x

pub lookup-stripped : (k : String) (d : Labels) → lookup k (stripped d) ≡ stripped_at k (lookup k d)
lookup-stripped k d = ground (
  arith,
  lookup-erase k "container" (erase "client" (erase "le" d)),
  lookup-erase k "client" (erase "le" d),
  lookup-erase k "le" d,
)

abbrev pub hacked_at : (k : String) → Looked → Looked → Looked
hacked_at k none x = x
hacked_at k (some v) x =
    if v == "observatorium-alertmanager"
    then (if "service" == k then some "observatorium-api" else x)
    else x

pub lookup-pruned :
    (k : String) (d : Labels)
    → lookup k (pruned d)
      ≡ hacked_at k (stripped_at "service" (lookup "service" d)) (stripped_at k (lookup k d))
lookup-pruned k d =
    at_value (lookup "service" (stripped d))
    ∙ ap (λ s. hacked_at k s (lookup k (stripped d))) (lookup-stripped "service" d)
    ∙ ap (hacked_at k (stripped_at "service" (lookup "service" d))) (lookup-stripped k d)
  where
    at_value :
        (o : Looked) → lookup k (hacked_in (stripped d) o) ≡ hacked_at k o (lookup k (stripped d))
    at_value none = refl
    at_value (some v) = ground (arith, lookup-insert k "service" "observatorium-api" (stripped d))

abbrev pub lowered_at : (k : String) → Looked → Looked → Looked
lowered_at k none x = x
lowered_at k (some v) x =
    if v == "critical"
    then (if "severity" == k then some "high" else x)
    else if v == "warning"
    then (if "severity" == k then some "medium" else x)
    else x

pub lookup-lowered :
    (k alert : String) (d : Labels)
    → lookup k (lowered_severity alert d) ≡ (
        if alert == "SLOMetricAbsent"
        then (if "severity" == k then some "medium" else lookup k d)
        else lowered_at k (lookup "severity" d) (lookup k d))
lookup-lowered k alert d = elim (Bool-cases (alert == "SLOMetricAbsent")) [
  | inl e ↦ rw e (lookup-insert k "severity" "medium" d)
  | inr e ↦ rw e (at_value (lookup "severity" d))
]
  where
    at_value : (o : Looked) → lookup k (lowered_in d o) ≡ lowered_at k o (lookup k d)
    at_value none = refl
    at_value (some v) =
        ground (arith, lookup-insert k "severity" "high" d, lookup-insert k "severity" "medium" d)

pub kept_by_rename :
    (k old new : String) (d : Labels)
    → (old == k) ≡ false
    → (new == k) ≡ false
    → lookup k (renamed old new d) ≡ lookup k d
kept_by_rename k old new d p q = lookup-renamed k old new d ∙ at_value (lookup old d) (lookup k d)
  where
    at_value : (o x : Looked) → moved_at k old new o x ≡ x
    at_value none x = refl
    at_value (some v) x = rw (p, q) refl

pub moved_away : (old new : String) (d : Labels) → lookup old (renamed old new d) ≡ none
moved_away old new d = lookup-renamed old old new d ∙ at_value (lookup old d)
  where
    at_value : (o : Looked) → moved_at old old new o o ≡ none
    at_value none = refl
    at_value (some v) = rw ((text_comparable.equal_iff old old).1 refl) refl

abbrev pub or_else : Looked → Looked → Looked
or_else none x = x
or_else (some v) x = some v

pub moved_to :
    (old new : String) (d : Labels)
    → (old == new) ≡ false
    → lookup new (renamed old new d) ≡ or_else (lookup old d) (lookup new d)
moved_to old new d p = lookup-renamed new old new d ∙ at_value (lookup old d) (lookup new d)
  where
    at_value : (o x : Looked) → moved_at new old new o x ≡ or_else o x
    at_value none x = refl
    at_value (some v) x = rw (p, (text_comparable.equal_iff new new).1 refl) refl

pub kept_by_lower :
    (k alert : String) (d : Labels)
    → ("severity" == k) ≡ false
    → lookup k (lowered_severity alert d) ≡ lookup k d
kept_by_lower k alert d p = lookup-lowered k alert d ∙ at_value (lookup "severity" d) (lookup k d)
  where
    at_value :
        (o x : Looked)
        → (if alert == "SLOMetricAbsent"
            then (if "severity" == k then some "medium" else x)
            else lowered_at k o x)
          ≡ x
    at_value none x = ground (arith, p)
    at_value (some v) x = ground (arith, p)

-- The labels when the windows are renamed, and when they are not yet.
abbrev pub first_stage : (alert : String) → Labels → Labels
first_stage alert d = if not (alert == "") then pruned d else d

pub kept_by_prune :
    (k alert : String) (d : Labels)
    → stripped_at k (lookup k d) ≡ lookup k d
    → ("service" == k) ≡ false
    → lookup k (first_stage alert d) ≡ lookup k d
kept_by_prune k alert d p q = elim (Bool-cases (not (alert == ""))) [
  | inl e ↦ rw e (
      lookup-pruned k d
      ∙ at_value (stripped_at "service" (lookup "service" d)) (stripped_at k (lookup k d))
      ∙ p)
  | inr e ↦ rw e refl
]
  where
    at_value : (o x : Looked) → hacked_at k o x ≡ x
    at_value none x = refl
    at_value (some v) x = ground (arith, q)

abbrev pub long_window : String
long_window = "long_burnrate_window"

abbrev pub short_window : String
short_window = "short_burnrate_window"

-- A label that the renaming of the windows leaves alone.
pub kept_after_prune :
    (k alert : String) (d : Labels)
    → ("short" == k) ≡ false
    → (short_window == k) ≡ false
    → ("long" == k) ≡ false
    → (long_window == k) ≡ false
    → lookup k (customised alert d) ≡ lookup k (first_stage alert d)
kept_after_prune k alert d b c e f =
    kept_by_rename k "short" short_window (renamed "long" long_window (first_stage alert d)) b c
    ∙ kept_by_rename k "long" long_window (first_stage alert d) e f
