-- ===== src/Slo/Written.antt =====
-- The files that `GenSLO` adds to its two generators.
use mathlib.Core.Path.{subst}
use mathlib.Core.List.{append_assoc, append-nil}
use rhobs.Base.{
  String, ◌<>◌, ◌≡◌, refl, sym, ap, ◌∙◌, inr, List, [], ◌∷◌, ◌++◌, map, All, distinct, true,
  text_comparable, All-append, arith,
}
use rhobs.Base.Outcome.{Outcome, ok, ◌>>=◌}
use rhobs.Mage.Heap.{Heap}
use rhobs.Slo.{Objective}
use rhobs.Slo.Rules.{
  Call, RuleGroup, PrometheusRule, rule_file_labels, objective_groups, groups_loop,
  make_prometheus_rule,
}
use rhobs.Slo.Labels.{HasMap, rules_of, customise_groups-final}
use rhobs.Slo.Generate.{EnvSlos, SloFiles, all_slos, env_slos, env_slos_loop, gen_slo}
use rhobs.Slo.Names.{IsGenerated, pyrra_files, rule_titles, all_slos-IsGenerated}

rules_of-append : (xs ys : List RuleGroup) → rules_of xs ++ rules_of ys ≡ rules_of (xs ++ ys)
rules_of-append [] ys = refl
rules_of-append (x ∷ xs) ys =
    append_assoc x.rules (rules_of xs) (rules_of ys)
    ∙ ap (λ rs. x.rules ++ rs) (rules_of-append xs ys)

HasMap-append :
    (xs ys : List RuleGroup)
    → All HasMap (rules_of xs)
    → All HasMap (rules_of ys)
    → All HasMap (rules_of (xs ++ ys))
HasMap-append xs ys p q =
    subst (All HasMap) (rules_of-append xs ys) (All-append HasMap (rules_of xs) (rules_of ys) p q)

-- A file of rules: its name, and the name of the rules in it.
abbrev pub titles : List (String × PrometheusRule) → List (String × String)
titles fs = map (λ f. (f.0, f.1.name)) fs

titles-append :
    (xs ys : List (String × PrometheusRule)) → titles (xs ++ ys) ≡ titles xs ++ titles ys
titles-append [] ys = refl
titles-append (x ∷ xs) ys = ap (λ l. (x.0, x.1.name) ∷ l) (titles-append xs ys)

module _ {Internal : Type 0} (internal : Objective → Call Internal)
    (increase_rules burnrates generic_rules : Internal → Call RuleGroup) where
  -- A call of the library returns a group, and no rule of it that must have labels has nil.
  abbrev pub Makes : Call RuleGroup → Type 0
  Makes call =
      (h : Heap) → (g : RuleGroup) × (h' : Heap) × (call h ≡ (inr g, h')) × All HasMap g.rules

  -- The library accepts an objective, and makes the three groups of it.
  abbrev pub Accepts : Objective → Type 0
  Accepts obj =
      (h : Heap)
      → (x : Internal) × (h' : Heap) × (internal obj h ≡ (inr x, h'))
        × Makes (increase_rules x)
        × Makes (burnrates x)
        × Makes (generic_rules x)

  abbrev three : Objective → Heap → Outcome (List RuleGroup × Heap)
  three = objective_groups internal increase_rules burnrates generic_rules

  -- The call returns groups whose rules have the maps that they need.
  abbrev MakesAll : Outcome (List RuleGroup × Heap) → Type 0
  MakesAll x = (gs : List RuleGroup) × (h : Heap) × (x ≡ ok (gs, h)) × All HasMap (rules_of gs)

  objective_groups-MakesAll : (obj : Objective) (h : Heap) → Accepts obj → MakesAll (three obj h)
  unfolding objective_groups
  objective_groups-MakesAll obj h accepts =
      let (x, h1, e1, makes_i, makes_b, makes_g) = accepts h in
      let (i, h2, e2, has_i) = makes_i h1 in
      let (b, h3, e3, has_b) = makes_b h2 in
      let (g, h4, e4, has_g) = makes_g h3 in
      (
        i ∷ b ∷ g ∷ [],
        h4,
        rw (e1, e2, e3, e4) refl,
        All-append _ i.rules (b.rules ++ (g.rules ++ [])) has_i
            (All-append _ b.rules (g.rules ++ []) has_b (All-append _ g.rules [] has_g tt)),
      )

  groups_loop-MakesAll :
      (objs : List Objective) (grp : List RuleGroup) (h : Heap)
      → All Accepts objs
      → All HasMap (rules_of grp)
      → MakesAll (groups_loop internal increase_rules burnrates generic_rules objs grp h)
  unfolding groups_loop
  groups_loop-MakesAll [] grp h accepts has = (grp, h, refl, has)
  groups_loop-MakesAll (obj ∷ objs) grp h (here, later) has =
      let (gs, h1, e, has_gs) = objective_groups-MakesAll obj h here in
      let (all, h2, e', has_all) =
        groups_loop-MakesAll objs (grp ++ gs) h1 later (HasMap-append grp gs has has_gs) in
      (all, h2, rw e e', has_all)

  made :
      (objs : List Objective) (name : String) (h : Heap)
      → All Accepts objs
      → (rule : PrometheusRule) × (g : Heap) × (make_prometheus_rule internal increase_rules
            burnrates generic_rules objs name h
          ≡ ok (rule, g))
        × (rule.name ≡ name)
  unfolding make_prometheus_rule
  made objs name h accepts =
      let (gs, h1, e, has) = groups_loop-MakesAll objs [] h accepts tt in
      let (g, e', changed) = customise_groups-final gs h1 has in
      (
        record {
          schema = "/openshift/prometheus-rule-1.yml";
          name = name;
          labels = rule_file_labels;
          groups = gs;
        },
        g,
        (rw (e, e') refl),
        refl,
      )

  module _ (prefix : String) where
    abbrev loop : List EnvSlos → SloFiles → Heap → Outcome (SloFiles × Heap)
    loop = env_slos_loop prefix internal increase_rules burnrates generic_rules

    -- The loop returns, and adds the objectives and the rules of each environment.
    env_slos_loop-Added :
        (envs : List EnvSlos) (files : SloFiles) (h : Heap)
        → All (λ e. All Accepts e.objs) envs
        → (all : SloFiles) × (g : Heap) × (loop envs files h ≡ ok (all, g))
          × (all.pyrra ≡ files.pyrra ++ pyrra_files envs)
          × (titles all.rules
              ≡ titles files.rules
                ++ map (λ e. (e.rule_filename <> ".prometheusrules.yaml", e.rule_filename)) envs)
    unfolding env_slos_loop env_slos
    env_slos_loop-Added [] files h accepts =
        (files, h, refl, sym (append-nil files.pyrra), sym (append-nil (titles files.rules)))
    env_slos_loop-Added (e ∷ envs) files h (here, later) =
        let (rule, g1, p, named) = made e.objs e.rule_filename h here in
        let added : SloFiles = record {
          pyrra = files.pyrra ++ map (λ o. (e.env_name <> ("-" <> (o.name <> ".yaml")), o)) e.objs;
          rules = files.rules ++ ((e.rule_filename <> ".prometheusrules.yaml", rule) ∷ []);
        } in
        let (all, g, q, r, s) = env_slos_loop-Added envs added g1 later in
        let new : String × PrometheusRule = (e.rule_filename <> ".prometheusrules.yaml", rule) in
        (
          all,
          g,
          (rw p q),
          r ∙ append_assoc files.pyrra _ (pyrra_files envs),
          s
              ∙ ap
                  (λ l.
                    l
                    ++ map (λ e. (e.rule_filename <> ".prometheusrules.yaml", e.rule_filename))
                        envs)
                  (titles-append files.rules (new ∷ []))
              ∙ append_assoc (titles files.rules) (titles (new ∷ [])) _
              ∙ ap
                  (λ n.
                    titles files.rules
                    ++ (e.rule_filename <> ".prometheusrules.yaml", n)
                      ∷ map (λ e. (e.rule_filename <> ".prometheusrules.yaml", e.rule_filename))
                          envs)
                  named,
        )

-- GenSLO does not panic, if Pyrra accepts each of the objectives of the program and makes the three groups
-- of it, of whose rules only those of the alert SLOMetricAbsent must have labels that are not nil; rules
-- may share their maps of labels. The objectives are those of six environments. It adds one file for
-- each objective, with the objective, under the name of the environment and of the objective, and these
-- names differ; and one file of rules for each environment, under the six names that are listed. The
-- alerts of an environment differ. Each availability objective has the target of 99 percent, each latency
-- objective that of 90. Two objectives of the Observatorium API, in each environment that has them, count
-- the same requests as an earlier objective: those for 100 million samples count the queries of
-- one million. For the two environments of rhelemeter no dashboard is known.
pub gen_slo-writes :
    (prefix : String) {Internal : Type 0} (internal : Objective → Call Internal)
    (increase_rules burnrates generic_rules : Internal → Call RuleGroup) (envs : List EnvSlos)
    (h : Heap)
    → all_slos prefix ≡ ok envs
    → All (λ e. All (Accepts internal increase_rules burnrates generic_rules) e.objs) envs
    → (files : SloFiles) × (g : Heap) × (gen_slo prefix internal increase_rules burnrates
          generic_rules h
        ≡ ok (files, g))
      × (files.pyrra ≡ pyrra_files envs)
      × (distinct (map (λ f. f.0) files.pyrra) ≡ true)
      × (titles files.rules ≡ rule_titles)
      × IsGenerated envs
unfolding gen_slo
gen_slo-writes prefix internal increase_rules burnrates generic_rules envs h listed accepts =
    let (known, e, generated) = all_slos-IsGenerated prefix in
    let same : known ≡ envs = ground (arith, e, listed) in
    let tidy : IsGenerated envs = subst IsGenerated same generated in
    let (files, g, ran, pyrra, rules) =
      env_slos_loop-Added internal increase_rules burnrates generic_rules prefix envs
        (record { pyrra = []; rules = [] }) h accepts in
    (
      files,
      g,
      ap
            (λ x. x >>= λ envs.
              loop internal increase_rules burnrates generic_rules prefix envs
                (record { pyrra = []; rules = [] }) h)
            listed
          ∙ ran,
      pyrra,
      ap (λ l. distinct (map (λ f. f.0) l)) pyrra ∙ tidy.files_once,
      rules ∙ tidy.rules_named,
      tidy,
    )
