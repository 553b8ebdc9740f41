-- ===== src/Framework/Kubernetes/Returned.antt =====
-- What a call did, when it is known to have returned.
use rhobs.Base.{
  ◌≡◌, refl, ap, if◌then◌else◌, not, ◌||◌, ◌∙◌, Bool, true, false, ◌⊎◌, inl, inr, List, Option,
  none, some, [], ◌∷◌, ◌++◌,
}
use rhobs.Framework.{
  Action, ErrorLists, joined, Result, returned, failed, crashed, ret, fail, after, ◌>>=◌, caught,
  handle, errors_of, deref, is_empty,
}
use rhobs.Framework.Errors.{Failure}

abbrev pair : List Failure → List Failure → ErrorLists
pair ds ps = (ds, ps)

pair_apart :
    {W : Type 0} {ds ps : List Failure} {v w : W}
    → ret (pair ds ps) v ≡ (returned (pair [] []), w)
    → (ds ≡ []) × (ps ≡ []) × (v ≡ w)
pair_apart e = (cc, cc, cc)

pub no_errors :
    (errors : ErrorLists)
    → (not (is_empty errors.0) || not (is_empty errors.1)) ≡ false
    → errors ≡ ([], [])
no_errors ([], []) e = refl
no_errors (d ∷ ds, ps) e = cc
no_errors ([], p ∷ ps) e = cc

module _ {W : Type 0} where
  -- A call that returned a value, with its value and the world after it.
  abbrev pub Returned : {A : Type 0} → Action W A → W → (A → W → Type 0) → Type 0
  Returned {A} m u P = (a : A) × (v : W) × (m u ≡ (returned a, v)) × P a v

  after-returned :
      {A B : Type 0} (f : A → Action W B) (x : Result A × W) {b : B} {w : W}
      → after f x ≡ (returned b, w)
      → (a : A) × (v : W) × (x ≡ (returned a, v)) × (f a v ≡ (returned b, w))
  after-returned f (returned a, v) e = (a, v, refl, e)
  after-returned f (failed k, v) e = cc
  after-returned f (crashed, v) e = cc

  pub bind-returned :
      {A B : Type 0} (m : Action W A) (f : A → Action W B) {u w : W} {b : B}
      → (m >>= f) u ≡ (returned b, w)
      → Returned m u (λ a v. f a v ≡ (returned b, w))
  bind-returned m f {u} e = after-returned f (m u) e

  caught-returned :
      {A B : Type 0} (g : Failure → Action W B) (f : A → Action W B) (x : Result A × W) {b : B}
      {w : W}
      → caught g f x ≡ (returned b, w)
      → ((a : A) × (v : W) × (x ≡ (returned a, v)) × (f a v ≡ (returned b, w)))
        ⊎ ((e : Failure) × (v : W) × (x ≡ (failed e, v)) × (g e v ≡ (returned b, w)))
  caught-returned g f (returned a, v) e = inl (a, v, refl, e)
  caught-returned g f (failed k, v) e = inr (k, v, refl, e)
  caught-returned g f (crashed, v) e = cc

  pub handle-returned :
      {A B : Type 0} (m : Action W A) (g : Failure → Action W B) (f : A → Action W B) {u w : W}
      {b : B}
      → handle m g f u ≡ (returned b, w)
      → Returned m u (λ a v. f a v ≡ (returned b, w))
        ⊎ ((e : Failure) × (v : W) × (m u ≡ (failed e, v)) × (g e v ≡ (returned b, w)))
  handle-returned m g f {u} e = caught-returned g f (m u) e

  -- A handler that fails itself is no way to return.
  pub handle-fail-returned :
      {A B : Type 0} (m : Action W A) (k : Failure) (f : A → Action W B) {u w : W} {b : B}
      → handle m (λ e. fail k) f u ≡ (returned b, w)
      → Returned m u (λ a v. f a v ≡ (returned b, w))
  handle-fail-returned m k f e = elim (handle-returned m (λ e. fail k) f e) [
    | inl r ↦ r
    | inr (k', v, p, q) ↦ cc
  ]

  -- A guard that fails has let a call pass that returned.
  pub guard-returned :
      {A : Type 0} (b : Bool) (k : Failure) (m : Action W A) {u w : W} {a : A}
      → (if b then fail k else m) u ≡ (returned a, w)
      → (b ≡ false) × (m u ≡ (returned a, w))
  guard-returned true k m e = cc
  guard-returned false k m e = (refl, e)

  pub pass-returned :
      {A : Type 0} (b : Bool) (m : Action W A) (k : Failure) {u w : W} {a : A}
      → (if b then m else fail k) u ≡ (returned a, w)
      → (b ≡ true) × (m u ≡ (returned a, w))
  pass-returned true m k e = (refl, e)
  pass-returned false m k e = cc

  -- A handler that lets one error pass.
  pub excused-returned :
      {A B : Type 0} (m : Action W A) (excused : Failure → Bool) (k : Failure) (n : Action W B)
      (f : A → Action W B) {u w : W} {b : B}
      → ((e : Failure) → excused e ≡ true → e ≡ k)
      → handle m (λ e. if excused e then n else fail e) f u ≡ (returned b, w)
      → Returned m u (λ a v. f a v ≡ (returned b, w))
        ⊎ ((v : W) × (m u ≡ (failed k, v)) × (n v ≡ (returned b, w)))
  excused-returned m excused k n f only e =
      elim (handle-returned m (λ e. if excused e then n else fail e) f e) [
        | inl r ↦ inl r
        | inr (e', v, p, q) ↦
            let (h, r) = pass-returned (excused e') n e' q in
            inr (v, p ∙ ap (λ x. (failed x, v)) (only e' h), r)
      ]

  errors_of-empty :
      {A : Type 0} (x : Result A × W) {w : W}
      → caught (λ e. ret (e ∷ [])) (λ a. ret []) x ≡ (returned [], w)
      → (a : A) × (x ≡ (returned a, w))
  errors_of-empty (returned a, v) e = (a, cc)
  errors_of-empty (failed k, v) e = cc
  errors_of-empty (crashed, v) e = cc

  pub errors_of-returned :
      {A : Type 0} (m : Action W A) {u w : W}
      → errors_of m u ≡ (returned [], w)
      → (a : A) × (m u ≡ (returned a, w))
  errors_of-returned m {u} e = errors_of-empty (m u) e

  -- Two calls after which both lists of errors are empty.
  pub both-returned :
      {A B : Type 0} (m : Action W A) (n : Action W B) {u w : W}
      → (errors_of m >>= λ ds. errors_of n >>= λ ps. ret (pair ds ps)) u ≡ (returned ([], []), w)
      → (v : W) × ((a : A) × (m u ≡ (returned a, v))) × ((b : B) × (n v ≡ (returned b, w)))
  both-returned m n {u} {w} e =
      let (ds, v, p, e1) =
        bind-returned (errors_of m) (λ ds. errors_of n >>= λ ps. ret (pair ds ps)) e in
      let (ps, v', q, e2) = bind-returned (errors_of n) (λ ps. ret (pair ds ps)) e1 in
      let (no_ds, no_ps, vw) = pair_apart e2 in
      (
        v,
        errors_of-returned m (p ∙ ap (λ x. (returned x, v)) no_ds),
        errors_of-returned n (q ∙ ap (λ x. (returned x, v')) no_ps ∙ ap (λ x. (returned [], x)) vw),
      )

  pub deref-returned :
      {A : Type 0} (p : Option A) {u w : W} {a : A}
      → deref p u ≡ (returned a, w)
      → (p ≡ some a) × (u ≡ w)
  deref-returned none e = cc
  deref-returned (some a) e = (cc, cc)

pub append_empty : {A : Type 0} (xs ys : List A) → xs ++ ys ≡ [] → (xs ≡ []) × (ys ≡ [])
append_empty [] ys e = (refl, e)
append_empty (x ∷ xs) ys e = cc

none_joined :
    {W : Type 0} (x y : ErrorLists) {v w : W}
    → ret (joined x y) v ≡ (returned ([], []), w)
    → (x ≡ ([], [])) × (y ≡ ([], [])) × (v ≡ w)
none_joined (x0, x1) (y0, y1) e =
    let (p, q) = append_empty x0 y0 cc in let (r, s) = append_empty x1 y1 cc in (cc, cc, cc)

pub turns-returned :
    {W : Type 0} (m n : Action W ErrorLists) {u w : W}
    → (m >>= λ x. n >>= λ y. ret (joined x y)) u ≡ (returned ([], []), w)
    → (v : W) × (m u ≡ (returned ([], []), v)) × (n v ≡ (returned ([], []), w))
turns-returned m n e =
    let (x, v, p, e') = bind-returned m (λ x. n >>= λ y. ret (joined x y)) e in
    let (y, v', q, e'') = bind-returned n (λ y. ret (joined x y)) e' in
    let (h, k, l) = none_joined x y e'' in
    (
      v,
      p ∙ ap (λ x. (returned x, v)) h,
      q ∙ ap (λ y. (returned y, v')) k ∙ ap (λ z. (returned ([], []), z)) l,
    )
