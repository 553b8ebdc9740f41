-- ===== src/Framework/Workloads/Listed/Missed.antt =====
-- The listing that fails on an empty list, and what ends the loop over the namespaces then.
use rhobs.Base.{
  ◌≡◌, false, ◌==◌, text_comparable, Bool-cases, if◌then◌else◌, ◌⊎◌, inl, inr, String, List, [],
  ◌∷◌,
}
use rhobs.Base.Dict.{Dict, insert}
use rhobs.Framework.{Action, returned, failed, ret, fail, handle, is_empty, ◌>>=◌}
use rhobs.Framework.Errors.{Failure}
use rhobs.Framework.Kubernetes.Laws.{Time, Forward, Between, handle-Forward, choice-Forward}
use rhobs.Framework.Kubernetes.Failed.{bind-failed}
use rhobs.Framework.Kubernetes.Waiting.{forward_at}

module _ {W A : Type 0} (t : Time W) (list : String → Action W (List A)) where
  -- Nothing was listed for a namespace at a moment between two moments.
  abbrev pub NoneListed : W → W → String → Type 0
  NoneListed u w n = Between t u w (λ v. (x : W) × (list n v ≡ (returned [], x)))

  pub NoneListed-widen :
      (r u v w : W) (n : String)
      → t.Reaches r u
      → t.Reaches v w
      → NoneListed u v n
      → NoneListed r w n
  NoneListed-widen r u v w n p q (x, ux, xv, g) = (x, t.later p ux, t.later xv q, g)

  pub list-NoneListed :
      (n : String) {u w : W} → Forward t (list n) → list n u ≡ (returned [], w) → NoneListed u w n
  list-NoneListed n {u} {w} forward e = (u, t.now u, forward_at t (list n) forward e, (w, e))

  pub get-Forward :
      (n : String) (listing none : Failure)
      → Forward t (list n)
      → Forward t (
          handle
            (list n)
            (λ e. fail listing)
            (λ items. if is_empty items then fail none else ret items))
  get-Forward n listing none forward =
      handle-Forward t (list n) _ _ forward (λ e w. t.now w)
        λ items.
          choice-Forward t (is_empty items) (fail none) (ret items) (λ w. t.now w) (λ w. t.now w)

  -- Nothing was listed for one of the namespaces, which has a name.
  abbrev pub Missed : W → W → List String → Type 0
  Missed u w [] = ⊥
  Missed u w (n ∷ namespaces) = (((n == "") ≡ false) × NoneListed u w n) ⊎ Missed u w namespaces

  Missed-widen :
      (namespaces : List String) (r u w : W)
      → t.Reaches r u
      → Missed u w namespaces
      → Missed r w namespaces
  Missed-widen [] r u w p h = h
  Missed-widen (n ∷ namespaces) r u w p (inl (e, h)) =
      inl (e, NoneListed-widen r u w w n p (t.now w) h)
  Missed-widen (n ∷ namespaces) r u w p (inr h) = inr (Missed-widen namespaces r u w p h)

  module _ (none : Failure) (get : String → Action W (List A))
      (forward : (n : String) → Forward t (get n))
      (missed : (n : String) (u w : W)
        → (n == "") ≡ false
        → get n u ≡ (failed none, w)
        → NoneListed u w n)
      (loop : Dict String (List A) → List String → Action W (Dict String (List A)))
      (ends : (acc : Dict String (List A)) → loop acc [] ≡ ret acc)
      (step : (acc : Dict String (List A)) (m : String) (namespaces : List String)
        → loop acc (m ∷ namespaces) ≡ (
            if m == ""
            then loop acc namespaces
            else (get m >>= λ items. loop (insert m items acc) namespaces))) where
    pub loop-Missed :
        (acc : Dict String (List A)) (namespaces : List String) (u w : W)
        → loop acc namespaces u ≡ (failed none, w)
        → Missed u w namespaces
    loop-Missed acc [] u w e = let h : ret acc u ≡ (failed none, w) = rw (ends acc) at e in cc
    loop-Missed acc (m ∷ namespaces) u w e =
        let stepped = rw (step acc m namespaces) at e in
        elim (Bool-cases (m == "")) [
          | inl skip ↦ inr (loop-Missed acc namespaces u w (rw skip at stepped))
          | inr real ↦
              elim (bind-failed (get m) (λ items. loop (insert m items acc) namespaces)
                (rw real at stepped)) [
                  | inl e' ↦ inl (real, missed m u w real e')
                  | inr (items, v, p, q) ↦ inr (
                      Missed-widen namespaces u v w (forward_at t (get m) (forward m) p)
                        (loop-Missed (insert m items acc) namespaces v w q))
                ]
        ]
