-- ===== src/Slo/Labels.antt =====
-- The labels of the rules after the two passes. Rules may share a map, which each of them then changes.
use mathlib.Core.Path.{fun_ext}
use rhobs.Base.{
  ℕ, String, ◌≡◌, refl, sym, ap, ◌∙◌, Bool, false, not, Bool-cases, if◌then◌else◌, inl, inr, ◌==◌,
  nat_comparable, text_comparable, none, some, List, [], ◌∷◌, ◌++◌, All,
}
use rhobs.Base.Outcome.{Outcome, ok, ◌>>=◌}
use rhobs.Base.Outcome.Runs.{bind_assoc}
use rhobs.Mage.Heap.{Ref, Heap, read}
use rhobs.Slo.Rules.{
  Rule, RuleGroup, customise, prune, rename, lower_severity, for_rules, for_groups,
  customise_groups,
}
use rhobs.Slo.Passes.{
  Labels, Changes, customised, lowered_severity, customise-Changes, lower_severity-Changes,
}

abbrev pub rules_of : List RuleGroup → List Rule
rules_of [] = []
rules_of (g ∷ gs) = g.rules ++ rules_of gs

abbrev is_at : ℕ → Ref → Bool
is_at a none = false
is_at a (some b) = b == a

-- The alerts of the rules that have their labels in the map at an address, in the order of the rules.
abbrev pub alerts_at : ℕ → List Rule → List String
alerts_at a [] = []
alerts_at a (r ∷ rs) =
    let rest = alerts_at a rs in if is_at a r.labels then r.alert ∷ rest else rest

-- One change for each alert, one after the other.
abbrev pub applied : {A : Type 0} → (String → A → A) → List String → A → A
applied f [] d = d
applied f (b ∷ bs) d = applied f bs (f b d)

-- The second pass writes to the labels of a rule of this alert, which are not nil then.
abbrev pub HasMap : Rule → Type 0
HasMap r = r.labels ≡ none → (r.alert == "SLOMetricAbsent") ≡ false

module _ (step : Rule → Heap → Outcome Heap) (f : String → Labels → Labels)
    (changes : (a : ℕ) (alert rest : String) (h : Heap)
      → Changes a h
          (f alert (read (some a) h))
          (step (record { alert = alert; labels = some a; rest = rest }) h))
    (stays : (alert rest : String) (h : Heap)
      → (alert == "SLOMetricAbsent") ≡ false
      → step (record { alert = alert; labels = none; rest = rest }) h ≡ ok h) where
  -- A pass returns, and changes each map by `f` for each rule that has it.
  abbrev Passed : List Rule → Heap → Outcome Heap → Type 0
  Passed rs h x =
      (g : Heap) × (x ≡ ok g)
      × ((a : ℕ) → read (some a) g ≡ applied f (alerts_at a rs) (read (some a) h))

  first_Changes :
      (alert rest : String) (l : Ref) (rs : List Rule) (h : Heap)
      → HasMap (record { alert = alert; labels = l; rest = rest })
      → ((g : Heap) → Passed rs g (for_rules step rs g))
      → Passed
          (record { alert = alert; labels = l; rest = rest } ∷ rs)
          h
          (step (record { alert = alert; labels = l; rest = rest }) h >>= for_rules step rs)
  first_Changes alert rest none rs h m later =
      let (g, e, all) = later h in
      (g, ap (λ x. x >>= for_rules step rs) (stays alert rest h (m refl)) ∙ e, all)
  first_Changes alert rest (some b) rs h m later =
      let (g1, e1, here, there) = changes b alert rest h in
      let (g, e, all) = later g1 in
      (
        g,
        ap (λ x. x >>= for_rules step rs) e1 ∙ e,
        λ a. elim (Bool-cases (b == a)) [
          | inl same ↦
              let ba : b ≡ a = (nat_comparable.equal_iff b a).0 same in
              rw same (
                all a
                ∙ ap (applied f (alerts_at a rs)) (
                    ap (λ i. read (some i) g1) (sym ba)
                    ∙ here
                    ∙ ap (λ i. f alert (read (some i) h)) ba))
          | inr other ↦ rw other (all a ∙ ap (applied f (alerts_at a rs)) (there a other))
        ],
      )

  for_rules-Passed : (rs : List Rule) (h : Heap) → All HasMap rs → Passed rs h (for_rules step rs h)
  unfolding for_rules
  for_rules-Passed [] h o = (h, refl, λ a. refl)
  for_rules-Passed (r ∷ rs) h (m, ms) =
      first_Changes r.alert r.rest r.labels rs h m (λ g. for_rules-Passed rs g ms)

for_rules-append :
    (step : Rule → Heap → Outcome Heap) (xs ys : List Rule) (h : Heap)
    → for_rules step (xs ++ ys) h ≡ (for_rules step xs h >>= for_rules step ys)
unfolding for_rules
for_rules-append step [] ys h = refl
for_rules-append step (x ∷ xs) ys h =
    ap (λ k. step x h >>= k) (fun_ext (for_rules-append step xs ys))
    ∙ sym (bind_assoc (step x h) (for_rules step xs) (for_rules step ys))

for_groups-rules_of :
    (step : Rule → Heap → Outcome Heap) (gs : List RuleGroup) (h : Heap)
    → for_groups step gs h ≡ for_rules step (rules_of gs) h
unfolding for_groups for_rules
for_groups-rules_of step [] h = refl
for_groups-rules_of step (g ∷ gs) h =
    ap (λ k. for_rules step g.rules h >>= k) (fun_ext (for_groups-rules_of step gs))
    ∙ sym (for_rules-append step g.rules (rules_of gs) h)

-- The nil map has no label that the passes look for.
customise-nil :
    (alert rest : String) (h : Heap)
    → customise (record { alert = alert; labels = none; rest = rest }) h ≡ ok h
unfolding customise prune rename
customise-nil alert rest h = elim (Bool-cases (not (alert == ""))) [
  | inl e ↦ rw e refl
  | inr e ↦ rw e refl
]

lower_severity-nil :
    (alert rest : String) (h : Heap)
    → (alert == "SLOMetricAbsent") ≡ false
    → lower_severity (record { alert = alert; labels = none; rest = rest }) h ≡ ok h
unfolding lower_severity
lower_severity-nil alert rest h e = rw e refl

-- The labels in a map after both passes, as a function of the alerts of its rules and of the labels before.
abbrev pub final : (alerts : List String) → Labels → Labels
final alerts d = applied lowered_severity alerts (applied customised alerts d)

-- Rules may share their maps of labels, and only a rule of the alert SLOMetricAbsent must have one that is
-- not nil. Then the two passes of `makePrometheusRule` over the groups do not panic, and what they make of
-- any map is one function of the labels in it and of the alerts of the rules that have it, in their
-- order: the first pass for each of these rules, and then the second. In particular a map that no rule has
-- stays as it is.
pub customise_groups-final :
    (grp : List RuleGroup) (h : Heap)
    → All HasMap (rules_of grp)
    → (g : Heap) × (customise_groups grp h ≡ ok g)
      × ((a : ℕ) → read (some a) g ≡ final (alerts_at a (rules_of grp)) (read (some a) h))
unfolding customise_groups
customise_groups-final grp h m =
    let rs = rules_of grp in
    let (g1, e1, first) =
      for_rules-Passed customise customised customise-Changes
        (λ alert rest h e. customise-nil alert rest h) rs h m in
    let (g, e2, second) =
      for_rules-Passed lower_severity lowered_severity lower_severity-Changes lower_severity-nil rs
        g1 m in
    (
      g,
      ap (λ x. x >>= for_groups lower_severity grp) (for_groups-rules_of customise grp h ∙ e1)
          ∙ for_groups-rules_of lower_severity grp g1
          ∙ e2,
      λ a. second a ∙ ap (applied lowered_severity (alerts_at a rs)) (first a),
    )
