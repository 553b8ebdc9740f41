-- ===== src/Mage/Operator/Fetched.antt =====
-- How the loop over the custom resource definitions ends.
use mathlib.Core.List.{append_assoc, append-nil}
use rhobs.Base.{
  suc, String, ◌<>◌, ◌≡◌, refl, sym, ap, ◌∙◌, ◌==◌, nat_comparable, true, false, Bool-cases, ◌⊎◌,
  inl, inr, List, [], ◌∷◌, ◌++◌, length, arith,
}
use rhobs.Mage.Value.{Object}
use rhobs.Mage.Operator.Crds.{Response, Fallible, components, base, received, crds_loop, crds}

module _ {W : Type 0} (get : String → W → Fallible Response × W) (close : Response → W → W)
    (decode : String → Fallible Object) (ref : String) where
  abbrev run : List String → List Object → W → Fallible (List Object) × W
  run = crds_loop get close decode ref

  -- The file of a component is fetched with the status 200, decoded, and its response closed.
  abbrev pub Fetched : String → W → Object → W → Type 0
  Fetched c w obj after =
      (resp : Response) × (w1 : W) × (get (base ref <> c) w ≡ (inr resp, w1))
      × ((resp.status_code == 200) ≡ true)
      × (decode resp.body ≡ inr obj)
      × (after ≡ close resp w1)

  -- The file is not fetched or not decoded. The response is left open then.
  pub data Missed (c : String) (w : W) (e : String) (after : W) : Type 0 where
    unreachable :
        (x : String)
        → get (base ref <> c) w ≡ (inl x, after)
        → e ≡ "failed to fetch " <> ((base ref <> c) <> (": " <> x))
        → Missed c w e after
    refused :
        (resp : Response)
        → get (base ref <> c) w ≡ (inr resp, after)
        → (resp.status_code == 200) ≡ false
        → e ≡ "failed to fetch " <> ((base ref <> c) <> (": " <> resp.status))
        → Missed c w e after
    undecoded :
        (resp : Response) (x : String)
        → get (base ref <> c) w ≡ (inr resp, after)
        → (resp.status_code == 200) ≡ true
        → decode resp.body ≡ inl x
        → e ≡ "failed to decode " <> ((base ref <> c) <> (": " <> x))
        → Missed c w e after

  -- All are fetched, one after the other, and the objects are in their order.
  abbrev pub AllFetched : List String → W → List Object → W → Type 0
  AllFetched [] w objs after = (objs ≡ []) × (after ≡ w)
  AllFetched (c ∷ cs) w objs after =
      (obj : Object) × (w1 : W) × (rest : List Object) × Fetched c w obj w1
      × (objs ≡ obj ∷ rest)
      × AllFetched cs w1 rest after

  -- Some are fetched, and the next one is missed, which ends the loop.
  abbrev pub OneMissed : List String → W → String → W → Type 0
  OneMissed [] w e after = ⊥
  OneMissed (c ∷ cs) w e after =
      Missed c w e after
      ⊎ ((obj : Object) × (w1 : W) × Fetched c w obj w1 × OneMissed cs w1 e after)

  abbrev Ends : List String → List Object → W → Type 0
  Ends cs objs w =
      ((more : List Object) × (after : W) × (run cs objs w ≡ (inr (objs ++ more), after))
        × AllFetched cs w more after)
      ⊎ ((e : String) × (after : W) × (run cs objs w ≡ (inl e, after)) × OneMissed cs w e after)

  abbrev receive :
      String → List String → List Object → Fallible Response × W → Fallible (List Object) × W
  receive c cs objs r = received get close decode (base ref <> c) (run cs) objs r

  run_cons :
      (c : String) (cs : List String) (objs : List Object) (w : W) (r : Fallible Response × W)
      → get (base ref <> c) w ≡ r
      → run (c ∷ cs) objs w ≡ receive c cs objs r
  unfolding crds_loop
  run_cons c cs objs w r e = ap (receive c cs objs) e

  -- One round with a response of status 200.
  answered :
      (c : String) (cs : List String) (objs : List Object) (w : W) (resp : Response) (w1 : W)
      → get (base ref <> c) w ≡ (inr resp, w1)
      → (resp.status_code == 200) ≡ true
      → ((more : List Object) (v : W) → Ends cs more v)
      → (d : Fallible Object) → decode resp.body ≡ d
      → Ends (c ∷ cs) objs w
  answered c cs objs w resp w1 e good later (inl x) p = inr (
    "failed to decode " <> ((base ref <> c) <> (": " <> x)),
    w1,
    run_cons c cs objs w _ e ∙ ground (arith, good, p),
    inl (Missed.undecoded resp x e good p refl),
  )
  answered c cs objs w resp w1 e good later (inr obj) p =
      let went : run (c ∷ cs) objs w ≡ run cs (objs ++ (obj ∷ [])) (close resp w1) =
        run_cons c cs objs w _ e ∙ ground (arith, good, p) in
      elim (later (objs ++ (obj ∷ [])) (close resp w1)) [
        | inl (more, after, done, all_fetched) ↦ inl (
          obj ∷ more,
          after,
          went ∙ done ∙ ap (λ l. (inr l, after)) (append_assoc objs (obj ∷ []) more),
          (obj, close resp w1, more, (resp, w1, e, good, p, refl), refl, all_fetched),
        )
        | inr (x, after, done, missed) ↦
            inr (
              x,
              after,
              went ∙ done,
              inr (obj, close resp w1, (resp, w1, e, good, p, refl), missed),
            )
      ]

  round :
      (c : String) (cs : List String) (objs : List Object) (w : W) (r : Fallible Response) (w1 : W)
      → get (base ref <> c) w ≡ (r, w1)
      → ((more : List Object) (v : W) → Ends cs more v)
      → Ends (c ∷ cs) objs w
  round c cs objs w (inl x) w1 e later = inr (
    "failed to fetch " <> ((base ref <> c) <> (": " <> x)),
    w1,
    run_cons c cs objs w _ e,
    inl (Missed.unreachable x e refl),
  )
  round c cs objs w (inr resp) w1 e later = elim (Bool-cases (resp.status_code == 200)) [
    | inr bad ↦ inr (
      "failed to fetch " <> ((base ref <> c) <> (": " <> resp.status)),
      w1,
      run_cons c cs objs w _ e ∙ ground (arith, bad),
      inl (Missed.refused resp e bad refl),
    )
    | inl good ↦ answered c cs objs w resp w1 e good later (decode resp.body) refl
  ]

  crds_loop-Ends : (cs : List String) (objs : List Object) (w : W) → Ends cs objs w
  unfolding crds_loop
  crds_loop-Ends [] objs w = inl ([], w, ap (λ l. (inr l, w)) (sym (append-nil objs)), (refl, refl))
  crds_loop-Ends (c ∷ cs) objs w =
      round c cs objs w (get (base ref <> c) w).0 (get (base ref <> c) w).1 refl (crds_loop-Ends cs)

  length-AllFetched :
      (cs : List String) (w : W) (objs : List Object) (after : W)
      → AllFetched cs w objs after
      → length objs ≡ length cs
  length-AllFetched [] w objs after (e, f) = ap length e
  length-AllFetched (c ∷ cs) w objs after (obj, w1, rest, fetched, e, more) =
      ap length e ∙ ap suc (length-AllFetched cs w1 rest after more)

  -- `crds` returns the definitions of all five components in their order, each fetched with the status
  -- 200 and decoded, and its response closed before the next one is fetched; or it returns the error of the
  -- first component that is not fetched, has another status, or is not decoded, with the components
  -- before it fetched. The response of that component is not closed.
  pub crds-ends :
      (w : W)
      → ((objs : List Object) × (after : W) × (crds get close decode ref w ≡ (inr objs, after))
          × (length objs ≡ 5)
          × AllFetched components w objs after)
        ⊎ ((e : String) × (after : W) × (crds get close decode ref w ≡ (inl e, after))
            × OneMissed components w e after)
  unfolding crds
  crds-ends w = elim (crds_loop-Ends components [] w) [
    | inl (objs, after, e, f) ↦ inl (objs, after, e, length-AllFetched components w objs after f, f)
    | inr (e, after, done, missed) ↦ inr (e, after, done, missed)
  ]
