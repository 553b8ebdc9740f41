-- ===== src/Framework/Kubernetes/Failed.antt =====
-- What a call did, when it is known to have failed.
use rhobs.Base.{
  ◌≡◌, refl, ap, ◌∙◌, Bool, Bool-cases, true, false, if◌then◌else◌, ◌⊎◌, inl, inr, List, [], ◌∷◌,
}
use rhobs.Framework.{
  Action, Result, returned, failed, crashed, ret, fail, after, ◌>>=◌, caught, handle, is_empty,
}
use rhobs.Framework.Errors.{Failure}
use rhobs.Framework.Kubernetes.Returned.{Returned}

module _ {W : Type 0} where
  after-failed :
      {A B : Type 0} (f : A → Action W B) (x : Result A × W) {k : Failure} {w : W}
      → after f x ≡ (failed k, w)
      → (x ≡ (failed k, w)) ⊎ ((a : A) × (v : W) × (x ≡ (returned a, v)) × (f a v ≡ (failed k, w)))
  after-failed f (returned a, v) e = inr (a, v, refl, e)
  after-failed f (failed j, v) e = inl cc
  after-failed f (crashed, v) e = cc

  pub bind-failed :
      {A B : Type 0} (m : Action W A) (f : A → Action W B) {u w : W} {k : Failure}
      → (m >>= f) u ≡ (failed k, w)
      → (m u ≡ (failed k, w)) ⊎ Returned m u (λ a v. f a v ≡ (failed k, w))
  bind-failed m f {u} e = after-failed f (m u) e

  -- A guard that fails with another error has let the call pass.
  pub guard-failed :
      {A : Type 0} (b : Bool) (j k : Failure) (m : Action W A) {u w : W}
      → (j ≡ k → ⊥)
      → (if b then fail j else m) u ≡ (failed k, w)
      → m u ≡ (failed k, w)
  guard-failed true j k m apart e = absurd (apart cc)
  guard-failed false j k m apart e = e

  caught-none :
      {A : Type 0} (listing none : Failure) (x : Result (List A) × W) {w : W}
      → (listing ≡ none → ⊥)
      → caught (λ e. fail listing) (λ items. if is_empty items then fail none else ret items) x
        ≡ (failed none, w)
      → x ≡ (returned [], w)
  caught-none listing none (returned [], v) apart e = cc
  caught-none listing none (returned (d ∷ ds), v) apart e = cc
  caught-none listing none (failed k, v) apart e = absurd (apart cc)
  caught-none listing none (crashed, v) apart e = cc

  -- A call that lists has failed on an empty list.
  pub get-failed :
      {A : Type 0} (m : Action W (List A)) (listing none : Failure) {u w : W}
      → (listing ≡ none → ⊥)
      → handle m (λ e. fail listing) (λ items. if is_empty items then fail none else ret items) u
        ≡ (failed none, w)
      → m u ≡ (returned [], w)
  get-failed m listing none {u} apart e = caught-none listing none (m u) apart e

  excused-caught :
      {A B : Type 0} (excused : Failure → Bool) (n : Action W B) (f : A → Action W B)
      (x : Result A × W) {k : Failure} {w : W}
      → excused k ≡ true
      → caught (λ e. if excused e then n else fail e) f x ≡ (failed k, w)
      → ((v : W) × (n v ≡ (failed k, w)))
        ⊎ ((a : A) × (v : W) × (x ≡ (returned a, v)) × (f a v ≡ (failed k, w)))
  excused-caught excused n f (returned a, v) h e = inr (a, v, refl, e)
  excused-caught excused n f (failed j, v) {k} h e = elim (Bool-cases (excused j)) [
    | inl pass ↦ inl (v, rw pass at e)
    | inr stop ↦ let e' : fail j v ≡ (failed k, _) = rw stop at e in cc
  ]
  excused-caught excused n f (crashed, v) h e = cc

  -- An error that the handler lets pass comes from elsewhere.
  pub excused-failed :
      {A B : Type 0} (m : Action W A) (excused : Failure → Bool) (n : Action W B)
      (f : A → Action W B) {u w : W} {k : Failure}
      → excused k ≡ true
      → handle m (λ e. if excused e then n else fail e) f u ≡ (failed k, w)
      → ((v : W) × (n v ≡ (failed k, w))) ⊎ Returned m u (λ a v. f a v ≡ (failed k, w))
  excused-failed m excused n f {u} h e = excused-caught excused n f (m u) h e

  kept-failed :
      {A : Type 0} (k : Failure) (found : List A) {v w : W}
      → (if is_empty found then fail k else ret found) v ≡ (failed k, w)
      → (found ≡ []) × (v ≡ w)
  kept-failed k [] e = (refl, cc)
  kept-failed k (x ∷ found) e = cc

  -- A map was stored between two guards, and the second one has failed, or what made the map.
  pub store-failed :
      {A : Type 0} (names : List A) {B : Type 0} (m : Action W (List B)) (j k : Failure) {u w : W}
      → (j ≡ k → ⊥)
      → (if is_empty names
            then fail j
            else (m >>= λ found. if is_empty found then fail k else ret found))
          u
        ≡ (failed k, w)
      → (m u ≡ (failed k, w)) ⊎ (m u ≡ (returned [], w))
  store-failed names {B} m j k apart e =
      let kept : List B → Action W (List B) =
        λ found. if is_empty found then fail k else ret found in
      elim (bind-failed m kept (guard-failed (is_empty names) j k (m >>= kept) apart e)) [
        | inl e' ↦ inl e'
        | inr (found, v, p, q) ↦
            let (nothing, vw) = kept-failed k found q in
            inr (p ∙ ap (λ x. (returned x, v)) nothing ∙ ap (λ x. (returned [], x)) vw)
      ]
