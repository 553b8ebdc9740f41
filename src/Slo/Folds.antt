-- ===== src/Slo/Folds.antt =====
-- The two passes for several rules that have one map: what they leave of one label.
use rhobs.Base.{
  String, ◌≡◌, refl, ap, ◌∙◌, ◌==◌, text_comparable, false, not, Bool, Bool-cases, if◌then◌else◌,
  inl, inr, none, some, List, [], ◌∷◌, any, arith,
}
use rhobs.Base.Dict.{lookup}
use rhobs.Slo.Passes.{Labels, customised, lowered_severity, renamed}
use rhobs.Slo.Labels.{applied}
use rhobs.Slo.Lookups.{
  Looked, hacked_at, lookup-pruned, lowered_at, lookup-lowered, stripped_at, kept_by_rename,
  moved_away, or_else, moved_to, first_stage, kept_by_prune, long_window, short_window,
  kept_after_prune,
}

-- Where a change of the labels is a change of one of them, so are several.
pub lookup-applied :
    (k : String) (f : String → Labels → Labels) (φ : String → Looked → Looked)
    → ((b : String) (d : Labels) → lookup k (f b d) ≡ φ b (lookup k d))
    → (bs : List String) (d : Labels) → lookup k (applied f bs d) ≡ applied φ bs (lookup k d)
lookup-applied k f φ step [] d = refl
lookup-applied k f φ step (b ∷ bs) d =
    lookup-applied k f φ step bs (f b d) ∙ ap (applied φ bs) (step b d)

-- A change for the alerts of one kind, which is done as well once as several times.
abbrev pub guarded : (String → Bool) → (Looked → Looked) → String → Looked → Looked
guarded p φ b x = if p b then φ x else x

pub applied-guarded :
    (p : String → Bool) (φ : Looked → Looked)
    → ((x : Looked) → φ (φ x) ≡ φ x)
    → (bs : List String) (x : Looked) → applied (guarded p φ) bs x ≡ (if any p bs then φ x else x)
applied-guarded p φ idem [] x = refl
applied-guarded p φ idem (b ∷ bs) x = elim (Bool-cases (p b)) [
  | inl e ↦ elim (Bool-cases (any p bs)) [
    | inl more ↦
        rw e
          (applied-guarded p φ idem bs (φ x) ∙ ap (λ c. if c then φ (φ x) else φ x) more ∙ idem x)
    | inr none_left ↦
        rw e (applied-guarded p φ idem bs (φ x) ∙ ap (λ c. if c then φ (φ x) else φ x) none_left)
  ]
  | inr e ↦ rw e (applied-guarded p φ idem bs x)
]

pub applied-kept : (bs : List String) (x : Looked) → applied (λ b y. y) bs x ≡ x
applied-kept [] x = refl
applied-kept (b ∷ bs) x = applied-kept bs x

-- The severity, which is lowered by each rule.
abbrev pub eased : Looked → Looked
eased none = none
eased (some v) =
    if v == "critical" then some "high" else if v == "warning" then some "medium" else some v

abbrev pub is_absent : String → Bool
is_absent b = b == "SLOMetricAbsent"

abbrev pub lowers : String → Looked → Looked
lowers b x = if is_absent b then some "medium" else eased x

pub lookup-lowers :
    (b : String) (d : Labels)
    → lookup "severity" (lowered_severity b d) ≡ lowers b (lookup "severity" d)
lookup-lowers b d = lookup-lowered "severity" b d ∙ at_value (lookup "severity" d)
  where
    at_value :
        (o : Looked)
        → (if b == "SLOMetricAbsent" then some "medium" else lowered_at "severity" o o) ≡ lowers b o
    at_value none = refl
    at_value (some v) = refl

eased_again : (x : Looked) → eased (eased x) ≡ eased x
eased_again none = refl
eased_again (some v) = elim (Bool-cases (v == "critical")) [
  | inl e ↦ rw e refl
  | inr e ↦ elim (Bool-cases (v == "warning")) [
    | inl f ↦ rw (e, f) refl
    | inr f ↦ rw (e, f, e, f) refl
  ]
]

applied-settled :
    (bs : List String) (x : Looked)
    → eased x ≡ x
    → applied lowers bs x ≡ (if any is_absent bs then some "medium" else x)
applied-settled [] x s = refl
applied-settled (b ∷ bs) x s = elim (Bool-cases (is_absent b)) [
  | inl e ↦ elim (Bool-cases (any is_absent bs)) [
    | inl more ↦ rw e (applied-settled bs (some "medium") refl ∙ (rw more refl))
    | inr last ↦ rw e (applied-settled bs (some "medium") refl ∙ (rw last refl))
  ]
  | inr e ↦ rw e (ap (applied lowers bs) s ∙ applied-settled bs x s)
]

pub applied-lowers :
    (b : String) (bs : List String) (x : Looked)
    → applied lowers (b ∷ bs) x ≡ (if any is_absent (b ∷ bs) then some "medium" else eased x)
applied-lowers b bs x = elim (Bool-cases (is_absent b)) [
  | inl e ↦ elim (Bool-cases (any is_absent bs)) [
    | inl more ↦ rw e (applied-settled bs (some "medium") refl ∙ (rw more refl))
    | inr last ↦ rw e (applied-settled bs (some "medium") refl ∙ (rw last refl))
  ]
  | inr e ↦ rw e (applied-settled bs (eased x) (eased_again x))
]

-- A rule with the name of an alert.
abbrev pub is_alert : String → Bool
is_alert b = not (b == "")

abbrev pub served : Looked → Looked
served none = none
served (some v) = if v == "observatorium-alertmanager" then some "observatorium-api" else some v

pub served_again : (x : Looked) → served (served x) ≡ served x
served_again none = refl
served_again (some v) = elim (Bool-cases (v == "observatorium-alertmanager")) [
  | inl e ↦ rw e refl
  | inr e ↦ rw (e, e) refl
]

served_at : (o : Looked) → hacked_at "service" o o ≡ served o
served_at none = refl
served_at (some v) = refl

-- One round of the first pass, at each label that it knows.
pub customised-severity :
    (b : String) (d : Labels) → lookup "severity" (customised b d) ≡ lookup "severity" d
customised-severity b d =
    kept_after_prune "severity" b d refl refl refl refl ∙ kept_by_prune "severity" b d refl refl

pub customised-service :
    (b : String) (d : Labels)
    → lookup "service" (customised b d) ≡ guarded is_alert served b (lookup "service" d)
customised-service b d =
    kept_after_prune "service" b d refl refl refl refl ∙ elim (Bool-cases (not (b == ""))) [
      | inl e ↦ rw e (lookup-pruned "service" d ∙ served_at (lookup "service" d))
      | inr e ↦ rw e refl
    ]

pub customised-stripped :
    (k b : String) (d : Labels)
    → ("short" == k) ≡ false
    → (short_window == k) ≡ false
    → ("long" == k) ≡ false
    → (long_window == k) ≡ false
    → stripped_at k (lookup k d) ≡ none
    → ("service" == k) ≡ false
    → lookup k (customised b d) ≡ guarded is_alert (λ x. none) b (lookup k d)
customised-stripped k b d p q r s t u =
    kept_after_prune k b d p q r s ∙ elim (Bool-cases (not (b == ""))) [
      | inl e ↦ rw e (
          lookup-pruned k d
          ∙ ap (hacked_at k (stripped_at "service" (lookup "service" d))) t
          ∙ at_value (stripped_at "service" (lookup "service" d)))
      | inr e ↦ rw e refl
    ]
  where
    at_value : (o : Looked) → hacked_at k o none ≡ none
    at_value none = refl
    at_value (some v) = ground (arith, u)

-- The windows: the old label is moved by the first rule, and then there is none to be moved.
pub customised-long : (b : String) (d : Labels) → lookup "long" (customised b d) ≡ none
customised-long b d =
    let d0 = first_stage b d in
    kept_by_rename "long" "short" short_window (renamed "long" long_window d0) refl refl
    ∙ moved_away "long" long_window d0

pub customised-short : (b : String) (d : Labels) → lookup "short" (customised b d) ≡ none
customised-short b d =
    moved_away "short" short_window (renamed "long" long_window (first_stage b d))

pub customised-long_window :
    (b : String) (d : Labels)
    → lookup long_window (customised b d) ≡ or_else (lookup "long" d) (lookup long_window d)
customised-long_window b d =
    let d0 = first_stage b d in
    kept_by_rename long_window "short" short_window (renamed "long" long_window d0) refl refl
    ∙ moved_to "long" long_window d0 refl
    ∙ ap (λ o. or_else o (lookup long_window d0)) (kept_by_prune "long" b d refl refl)
    ∙ ap (or_else (lookup "long" d)) (kept_by_prune long_window b d refl refl)

pub customised-short_window :
    (b : String) (d : Labels)
    → lookup short_window (customised b d) ≡ or_else (lookup "short" d) (lookup short_window d)
customised-short_window b d =
    let d0 = first_stage b d in
    let d1 = renamed "long" long_window d0 in
    moved_to "short" short_window d1 refl
    ∙ ap (λ o. or_else o (lookup short_window d1))
        (kept_by_rename "short" "long" long_window d0 refl refl
          ∙ kept_by_prune "short" b d refl refl)
    ∙ ap (or_else (lookup "short" d)) (
        kept_by_rename short_window "long" long_window d0 refl refl
        ∙ kept_by_prune short_window b d refl refl)

module _ (old new : String) (away : (b : String) (d : Labels) → lookup old (customised b d) ≡ none)
    (to : (b : String) (d : Labels)
      → lookup new (customised b d) ≡ or_else (lookup old d) (lookup new d)) where
  applied-away :
      (bs : List String) (d : Labels)
      → lookup old d ≡ none
      → (lookup old (applied customised bs d) ≡ none)
        × (lookup new (applied customised bs d) ≡ lookup new d)
  applied-away [] d e = (e, refl)
  applied-away (b ∷ bs) d e =
      let (gone, kept) = applied-away bs (customised b d) (away b d) in
      (gone, kept ∙ to b d ∙ ap (λ o. or_else o (lookup new d)) e)

  pub applied-moved :
      (b : String) (bs : List String) (d : Labels)
      → (lookup old (applied customised (b ∷ bs) d) ≡ none)
        × (lookup new (applied customised (b ∷ bs) d) ≡ or_else (lookup old d) (lookup new d))
  applied-moved b bs d =
      let (gone, kept) = applied-away bs (customised b d) (away b d) in (gone, kept ∙ to b d)
