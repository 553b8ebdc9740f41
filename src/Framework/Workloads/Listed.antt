-- ===== src/Framework/Workloads/Listed.antt =====
-- What the loop over the namespaces puts into its map, in any of the packages that list by namespace.
pub mod Strict
pub mod Missed
use mathlib.Core.Path.{subst}
use rhobs.Base.{
  ◌≡◌, refl, sym, ap, ◌∙◌, false, ◌==◌, text_comparable, Bool-cases, if◌then◌else◌, ◌⊎◌, inl, inr,
  String, some, List, [], ◌∷◌, All, All-mono, arith,
}
use rhobs.Base.Dict.{Dict, lookup, insert, lookup-insert}
use rhobs.Framework.{Action, returned, ret, fail, ◌>>=◌, handle, is_empty}
use rhobs.Framework.Errors.{Failure}
use rhobs.Framework.Kubernetes.Laws.{Time, Forward, Between}
use rhobs.Framework.Kubernetes.Returned.{bind-returned, guard-returned, handle-fail-returned}
use rhobs.Framework.Kubernetes.Waiting.{forward_at}

module _ {W A : Type 0} (t : Time W) (list : String → Action W (List A)) where
  -- The objects of a namespace, not none, were what the cluster listed between two moments.
  abbrev pub Listed : W → W → String → List A → Type 0
  Listed u w n items =
      (is_empty items ≡ false) × Between t u w (λ v. (x : W) × (list n v ≡ (returned items, x)))

  Listed-widen :
      {r u v w : W} {n : String} {items : List A}
      → t.Reaches r u
      → t.Reaches v w
      → Listed u v n items
      → Listed r w n items
  Listed-widen p q (h, (x, ux, xv, g)) = (h, (x, t.later p ux, t.later xv q, g))

  Listed-Reaches : {u w : W} {n : String} {items : List A} → Listed u w n items → t.Reaches u w
  Listed-Reaches (h, (x, ux, xv, g)) = t.later ux xv

  -- A call that lists, and fails on an empty list.
  pub get-Listed :
      (listing none : Failure) (n : String) {u v : W} {items : List A}
      → Forward t (list n)
      → handle
          (list n)
          (λ e. fail listing)
          (λ items. if is_empty items then fail none else ret items)
          u
        ≡ (returned items, v)
      → Listed u v n items
  get-Listed listing none n {u} {v} {items = out} forward e =
      let (items, x, p, q) =
        handle-fail-returned (list n) listing
          (λ items. if is_empty items then fail none else ret items) e in
      let (h, g) = guard-returned (is_empty items) none (ret items) q in
      let same : items ≡ out = cc in
      let xv : x ≡ v = cc in
      (
        ap is_empty (sym same) ∙ h,
        (
          u,
          t.now u,
          subst (t.Reaches u) xv (forward_at t (list n) forward p),
          (x, p ∙ ap (λ z. (returned z, x)) same),
        ),
      )

  module _ (Absent : W → W → String → Type 0) where
    -- A namespace is the empty name, or passed over, or the map has what was listed for it.
    abbrev pub Known : Dict String (List A) → W → W → String → Type 0
    Known found u w n =
        (n ≡ "")
        ⊎ Absent u w n
        ⊎ ((items : List A) × (lookup n found ≡ some items) × Listed u w n items)

    module _ (loop : Dict String (List A) → List String → Action W (Dict String (List A))) where
      -- What a turn of the loop did, before the loop returned a map.
      abbrev pub Turn :
          Dict String (List A) → Dict String (List A) → String → List String → W → W → Type 0
      Turn found acc m namespaces u w =
          ((m ≡ "") × (loop acc namespaces u ≡ (returned found, w)))
          ⊎ ((v : W) × t.Reaches u v × Absent u v m × (loop acc namespaces v ≡ (returned found, w)))
          ⊎ ((items : List A) × (v : W) × Listed u v m items
              × (loop (insert m items acc) namespaces v ≡ (returned found, w)))

      module _
          (widen : (r u v w : W) (n : String)
            → t.Reaches r u
            → t.Reaches v w
            → Absent u v n
            → Absent r w n)
          (ends : (acc : Dict String (List A)) → loop acc [] ≡ ret acc)
          (turn : (found acc : Dict String (List A)) (m : String) (namespaces : List String)
              (u w : W)
            → loop acc (m ∷ namespaces) u ≡ (returned found, w)
            → Turn found acc m namespaces u w) where
        ended :
            (found acc : Dict String (List A)) (u w : W)
            → loop acc [] u ≡ (returned found, w)
            → (acc ≡ found) × (u ≡ w)
        ended found acc u w e =
            let h : ret acc u ≡ (returned found, w) = sym (ap (λ m. m u) (ends acc)) ∙ e in (cc, cc)

        loop-Reaches :
            (found acc : Dict String (List A)) (namespaces : List String) (u w : W)
            → loop acc namespaces u ≡ (returned found, w)
            → t.Reaches u w
        loop-Reaches found acc [] u w e =
            let (same, uw) = ended found acc u w e in subst (t.Reaches u) uw (t.now u)
        loop-Reaches found acc (m ∷ namespaces) u w e = elim (turn found acc m namespaces u w e) [
          | inl (skip, e') ↦ loop-Reaches found acc namespaces u w e'
          | inr (inl (v, uv, a, e')) ↦ t.later uv (loop-Reaches found acc namespaces v w e')
          | inr (inr (items, v, h, e')) ↦
              t.later (Listed-Reaches h) (loop-Reaches found (insert m items acc) namespaces v w e')
        ]

        loop-kept :
            (found acc : Dict String (List A)) (namespaces : List String) (n : String)
            (items : List A) (s u w : W)
            → t.Reaches s u
            → loop acc namespaces u ≡ (returned found, w)
            → lookup n acc ≡ some items
            → Listed s u n items
            → (kept : List A) × (lookup n found ≡ some kept) × Listed s w n kept
        loop-kept found acc [] n items s u w su e k h =
            let (same, uw) = ended found acc u w e in
            (items, ap (lookup n) (sym same) ∙ k, subst (λ z. Listed s z n items) uw h)
        loop-kept found acc (m ∷ namespaces) n items s u w su e k h =
            elim (turn found acc m namespaces u w e) [
              | inl (skip, e') ↦ loop-kept found acc namespaces n items s u w su e' k h
              | inr (inl (v, uv, a, e')) ↦
                  loop-kept found acc namespaces n items s v w (t.later su uv) e' k
                    (Listed-widen (t.now s) uv h)
              | inr (inr (new, v, g, e')) ↦
                  let uv = Listed-Reaches g in
                  elim (Bool-cases (m == n)) [
                    | inl same ↦
                        let mn : m ≡ n = ground (arith, text_comparable.equal_iff m n) in
                        loop-kept found (insert m new acc) namespaces n new s v w (t.later su uv) e'
                          (lookup-insert n m new acc ∙ (rw same refl))
                          (Listed-widen su (t.now v) (subst (λ z. Listed u v z new) mn g))
                    | inr other ↦
                        loop-kept found (insert m new acc) namespaces n items s v w (t.later su uv)
                          e' (lookup-insert n m new acc ∙ (rw other k))
                          (Listed-widen (t.now s) uv h)
                  ]
            ]

        Known-widen :
            (found : Dict String (List A)) (n : String) {u v w : W}
            → t.Reaches u v
            → Known found v w n
            → Known found u w n
        Known-widen found n uv (inl e) = inl e
        Known-widen found n {u} {v} {w} uv (inr (inl a)) =
            inr (inl (widen u v w w n uv (t.now w) a))
        Known-widen found n {w} uv (inr (inr (items, k, h))) =
            inr (inr (items, k, Listed-widen uv (t.now w) h))

        pub loop-listed :
            (found acc : Dict String (List A)) (namespaces : List String) (u w : W)
            → loop acc namespaces u ≡ (returned found, w)
            → All (Known found u w) namespaces
        loop-listed found acc [] u w e = tt
        loop-listed found acc (m ∷ namespaces) u w e = elim (turn found acc m namespaces u w e) [
          | inl (skip, e') ↦ (inl skip, loop-listed found acc namespaces u w e')
          | inr (inl (v, uv, a, e')) ↦ (
            inr (inl (widen u u v w m (t.now u) (loop-Reaches found acc namespaces v w e') a)),
            All-mono _ _ (λ n. Known-widen found n uv) namespaces
                (loop-listed found acc namespaces v w e'),
          )
          | inr (inr (new, v, g, e')) ↦
              let uv = Listed-Reaches g in
              (
                inr (
                    inr (
                      loop-kept found (insert m new acc) namespaces m new u v w uv e'
                        (ground (arith, lookup-insert m m new acc, text_comparable.equal_iff m m))
                        g)),
                All-mono _ _ (λ n. Known-widen found n uv) namespaces
                    (loop-listed found (insert m new acc) namespaces v w e'),
              )
        ]

        -- The loop between the two guards.
        pub store-listed :
            (k1 k2 : Failure) (namespaces : List String) (found : Dict String (List A)) (u w : W)
            → (if is_empty namespaces
                  then fail k1
                  else (loop [] namespaces >>= λ found.
                      if is_empty found then fail k2 else ret found))
                u
              ≡ (returned found, w)
            → All (Known found u w) namespaces
        store-listed k1 k2 namespaces found u w e =
            let checked : Dict String (List A) → Action W (Dict String (List A)) =
              λ found. if is_empty found then fail k2 else ret found in
            let (n1, e1) =
              guard-returned (is_empty namespaces) k1 (loop [] namespaces >>= checked) e in
            let (found', v, p, q) = bind-returned (loop [] namespaces) checked e1 in
            let (n2, g) = guard-returned (is_empty found') k2 (ret found') q in
            let same : found' ≡ found = cc in
            let vw : v ≡ w = cc in
            loop-listed found [] namespaces u w
              (p ∙ ap (λ z. (returned z, v)) same ∙ ap (λ z. (returned found, z)) vw)
