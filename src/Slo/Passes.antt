-- ===== src/Slo/Passes.antt =====
-- The two passes over the rules, which write to maps, as functions of the labels of each rule.
use rhobs.Base.{
  ℕ, String, ◌≡◌, refl, ap, ◌∙◌, ◌==◌, nat_comparable, text_comparable, false, not, Bool-cases,
  if◌then◌else◌, inl, inr, Option, none, some,
}
use rhobs.Base.Dict.{Dict, lookup, insert, erase}
use rhobs.Base.Outcome.{Outcome, ok, ◌>>=◌}
use rhobs.Mage.Heap.{Heap, read, assign, remove, assign-returned, remove_lem}
use rhobs.Slo.Rules.{moved, rename, hacked, prune, customise, lowered, lower_severity}

abbrev pub Labels : Type 0
Labels = Dict String String

abbrev pub moved_in : (old new : String) → Labels → Option String → Labels
moved_in old new d none = d
moved_in old new d (some v) = erase old (insert new v d)

abbrev pub renamed : (old new : String) → Labels → Labels
renamed old new d = moved_in old new d (lookup old d)

abbrev pub hacked_in : Labels → Option String → Labels
hacked_in d none = d
hacked_in d (some v) =
    if v == "observatorium-alertmanager" then insert "service" "observatorium-api" d else d

abbrev pub stripped : Labels → Labels
stripped d = erase "container" (erase "client" (erase "le" d))

abbrev pub pruned : Labels → Labels
pruned d = hacked_in (stripped d) (lookup "service" (stripped d))

-- What the first pass does to the labels of a rule.
abbrev pub customised : (alert : String) → Labels → Labels
customised alert d =
    renamed "short" "short_burnrate_window"
      (renamed "long" "long_burnrate_window" (if not (alert == "") then pruned d else d))

abbrev pub lowered_in : Labels → Option String → Labels
lowered_in d none = d
lowered_in d (some v) =
    if v == "critical"
    then insert "severity" "high" d
    else if v == "warning"
    then insert "severity" "medium" d
    else d

-- What the second pass does.
abbrev pub lowered_severity : (alert : String) → Labels → Labels
lowered_severity alert d =
    if alert == "SLOMetricAbsent"
    then insert "severity" "medium" d
    else lowered_in d (lookup "severity" d)

-- A call returns, the map at `a` is `new` then, and the others are as they were.
abbrev pub Changes : ℕ → Heap → (new : Labels) → Outcome Heap → Type 0
Changes a h new x =
    (g : Heap) × (x ≡ ok g)
    × (read (some a) g ≡ new)
    × ((b : ℕ) → (a == b) ≡ false → read (some b) g ≡ read (some b) h)

module _ (a : ℕ) where
  same : (h : Heap) → Changes a h (read (some a) h) (ok h)
  same h = (h, refl, refl, λ b _. refl)

  assigned :
      (k v : String) (h : Heap) → Changes a h (insert k v (read (some a) h)) (assign (some a) k v h)
  assigned k v h = assign-returned k v a h

  removed :
      (k : String) (h : Heap) → Changes a h (erase k (read (some a) h)) (ok (remove (some a) k h))
  removed k h = let (here, there) = remove_lem k a h in (remove (some a) k h, refl, here, there)

  then_change :
      (h : Heap) {d : Labels} (f : Labels → Labels) (x : Outcome Heap) (next : Heap → Outcome Heap)
      → Changes a h d x
      → ((g : Heap) → Changes a g (f (read (some a) g)) (next g))
      → Changes a h (f d) (x >>= next)
  then_change h f x next (g, e, here, there) later =
      let (g', e', here', there') = later g in
      (
        g',
        ap (λ y. y >>= next) e ∙ e',
        here' ∙ ap f here,
        λ b apart. there' b apart ∙ there b apart,
      )

  moved-Changes :
      (old new : String) (h : Heap) (o : Option String)
      → Changes a h (moved_in old new (read (some a) h) o) (moved old new (some a) h o)
  moved-Changes old new h none = same h
  moved-Changes old new h (some v) =
      then_change h (erase old) (assign (some a) new v h) (λ g. ok (remove (some a) old g))
        (assigned new v h) (removed old)

  rename-Changes :
      (old new : String) (h : Heap)
      → Changes a h (renamed old new (read (some a) h)) (rename old new (some a) h)
  unfolding rename
  rename-Changes old new h = moved-Changes old new h (lookup old (read (some a) h))

  hacked-Changes :
      (h : Heap) (o : Option String)
      → Changes a h (hacked_in (read (some a) h) o) (hacked (some a) h o)
  hacked-Changes h none = same h
  hacked-Changes h (some v) = elim (Bool-cases (v == "observatorium-alertmanager")) [
    | inl e ↦ rw e (assigned "service" "observatorium-api" h)
    | inr e ↦ rw e (same h)
  ]

  prune-Changes : (h : Heap) → Changes a h (pruned (read (some a) h)) (prune (some a) h)
  unfolding prune
  prune-Changes h =
      let hack : Labels → Labels = λ d. hacked_in d (lookup "service" d) in
      let last : Heap → Outcome Heap =
        λ g. hacked (some a) g (lookup "service" (read (some a) g)) in
      then_change h (λ d. hack (erase "container" (erase "client" d))) (ok (remove (some a) "le" h))
        (λ g. last (remove (some a) "container" (remove (some a) "client" g))) (removed "le" h)
        λ g.
          then_change g (λ d. hack (erase "container" d)) (ok (remove (some a) "client" g))
            (λ g'. last (remove (some a) "container" g')) (removed "client" g)
            λ g'.
              then_change g' hack (ok (remove (some a) "container" g')) last
                (removed "container" g')
                λ g''. hacked-Changes g'' (lookup "service" (read (some a) g''))

  pub customise-Changes :
      (alert rest : String) (h : Heap)
      → Changes a h
          (customised alert (read (some a) h))
          (customise (record { alert = alert; labels = some a; rest = rest }) h)
  unfolding customise
  customise-Changes alert rest h =
      let first : Changes a h
          (if not (alert == "") then pruned (read (some a) h) else read (some a) h)
          (if not (alert == "") then prune (some a) h else ok h) =
        elim (Bool-cases (not (alert == ""))) [
          | inl e ↦ rw e (prune-Changes h)
          | inr e ↦ rw e (same h)
        ] in
      then_change h
        (λ d. renamed "short" "short_burnrate_window" (renamed "long" "long_burnrate_window" d)) _ _
        first
        λ g.
          then_change g (renamed "short" "short_burnrate_window") _ _
            (rename-Changes "long" "long_burnrate_window" g)
            λ g'. rename-Changes "short" "short_burnrate_window" g'

  lowered-Changes :
      (h : Heap) (o : Option String)
      → Changes a h (lowered_in (read (some a) h) o) (lowered (some a) h o)
  lowered-Changes h none = same h
  lowered-Changes h (some v) = elim (Bool-cases (v == "critical")) [
    | inl e ↦ rw e (assigned "severity" "high" h)
    | inr e ↦ elim (Bool-cases (v == "warning")) [
      | inl f ↦ rw (e, f) (assigned "severity" "medium" h)
      | inr f ↦ rw (e, f) (same h)
    ]
  ]

  pub lower_severity-Changes :
      (alert rest : String) (h : Heap)
      → Changes a h
          (lowered_severity alert (read (some a) h))
          (lower_severity (record { alert = alert; labels = some a; rest = rest }) h)
  unfolding lower_severity
  lower_severity-Changes alert rest h = elim (Bool-cases (alert == "SLOMetricAbsent")) [
    | inl e ↦ rw e (assigned "severity" "medium" h)
    | inr e ↦ rw e (lowered-Changes h (lookup "severity" (read (some a) h)))
  ]
