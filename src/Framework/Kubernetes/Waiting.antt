-- ===== src/Framework/Kubernetes/Waiting.antt =====
-- What waiting calls and loops did, when they are known to have returned.
use mathlib.Core.Path.{subst}
use rhobs.Base.{◌≡◌, refl, ap, ◌∙◌, Bool, true, String, List, [], ◌∷◌, All, All-mono}
use rhobs.Framework.{Action, ErrorLists, Result, returned, ret, for_each, errors_of}
use rhobs.Framework.Kubernetes.{Cluster, Duration}
use rhobs.Framework.Kubernetes.Laws.{
  Time, Lawful, Forward, Retried, last, conflict, Polled, deadline, holds, breaks, crashes, again,
  for_each-Forward, handle-Forward, Polled-Forward,
}
use rhobs.Framework.Kubernetes.Returned.{turns-returned}

module _ {W : Type 0} (t : Time W) where
  pub forward_at :
      {A : Type 0} (m : Action W A)
      → Forward t m
      → {r : Result A} {v w : W} → m v ≡ (r, w)
      → t.Reaches v w
  forward_at m h {v} e = subst (t.Reaches v) (ap (λ x. x.1) e) (h v)

  pub Retried-returned :
      (fn : Action W Unit)
      → Forward t fn
      → (u w : W) (r : Result Unit) (a : Unit) → Retried t fn u r w
      → r ≡ returned a
      → (v : W) × t.Reaches u v × (fn v ≡ (returned a, w))
  Retried-returned fn f u w r a (last {v} p e) h = (v, p, e ∙ ap (λ r. (r, w)) h)
  Retried-returned fn f u w r a (conflict {v} {x} p e q) h =
      let (y, k, g) = Retried-returned fn f x w r a q h in
      (y, t.later p (t.later (forward_at fn f e) k), g)

  pub Polled-returned :
      (condition : Action W Bool)
      → Forward t condition
      → (u w : W) (r : Result Unit) (a : Unit) → Polled t condition u r w
      → r ≡ returned a
      → (v : W) × t.Reaches u v × (condition v ≡ (returned true, w))
  Polled-returned k f u w r a (deadline p) h = cc
  Polled-returned k f u w r a (holds {v} p e) h = (v, p, e)
  Polled-returned k f u w r a (breaks p e) h = cc
  Polled-returned k f u w r a (crashes p e) h = cc
  Polled-returned k f u w r a (again {v} {x} p e q) h =
      let (y, l, g) = Polled-returned k f x w r a q h in
      (y, t.later p (t.later (forward_at k f e) l), g)

  -- A turn that added no error, at a moment between two moments.
  abbrev pub Clean : Action W ErrorLists → W → W → Type 0
  Clean m u w = (v : W) × (x : W) × t.Reaches u v × t.Reaches x w × (m v ≡ (returned ([], []), x))

  pub for_each-Clean :
      {A : Type 0} (f : A → Action W ErrorLists)
      → ((a : A) → Forward t (f a))
      → (xs : List A) (u w : W) → for_each f xs u ≡ (returned ([], []), w)
      → All (λ a. Clean (f a) u w) xs
  for_each-Clean f h [] u w e = tt
  for_each-Clean f h (a ∷ xs) u w e =
      let (v, p, q) = turns-returned (f a) (for_each f xs) e in
      let vw = forward_at (for_each f xs) (for_each-Forward t f xs h) q in
      (
        (u, v, t.now u, vw, p),
        All-mono _ _ (λ b (y, z, r, s, g). (y, z, t.later (forward_at (f a) (h a) p) r, s, g)) xs
            (for_each-Clean f h xs v w q),
      )

module _ {W : Type 0} {c : Cluster W} {t : Time W} (l : Lawful c t) where
  pub retry-returned :
      (fn : Action W Unit)
      → Forward t fn
      → {u w : W} {a : Unit} → c.retry_on_conflict fn u ≡ (returned a, w)
      → (v : W) × t.Reaches u v × (fn v ≡ (returned a, w))
  retry-returned fn f {u} {w} {a} e =
      let r : Retried t fn u (returned a) w =
        subst (λ x. Retried t fn u x.0 x.1) e (l.retried fn u) in
      Retried-returned t fn f u w (returned a) a r refl

  pub poll-returned :
      (i o : Duration) (condition : Action W Bool)
      → Forward t condition
      → {u w : W} {a : Unit} → c.poll_until_context_timeout i o condition u ≡ (returned a, w)
      → (v : W) × t.Reaches u v × (condition v ≡ (returned true, w))
  poll-returned i o k f {u} {w} {a} e =
      let r : Polled t k u (returned a) w =
        subst (λ x. Polled t k u x.0 x.1) e (l.polled i o k u) in
      Polled-returned t k f u w (returned a) a r refl

  pub poll-Forward :
      (i o : Duration) (condition : Action W Bool)
      → Forward t condition
      → Forward t (errors_of (c.poll_until_context_timeout i o condition))
  poll-Forward i o k f =
      handle-Forward t (c.poll_until_context_timeout i o k) (λ e. ret (e ∷ [])) (λ a. ret [])
        (λ w. Polled-Forward t k f w _ _ (l.polled i o k w)) (λ e w. t.now w) (λ a w. t.now w)

module _ {W : Type 0} (t : Time W) where
  -- The two loops of a check, over the namespaces and over what is in each.
  pub loops-Clean :
      {A : Type 0} (turn : String → A → Action W ErrorLists) (items : String → List A)
      → ((n : String) (a : A) → Forward t (turn n a))
      → (namespaces : List String) (u w : W)
      → for_each (λ n. for_each (turn n) (items n)) namespaces u ≡ (returned ([], []), w)
      → All (λ n. All (λ a. Clean t (turn n a) u w) (items n)) namespaces
  loops-Clean turn items f namespaces u w e =
      All-mono _ _
        (λ n (v, x, uv, xw, g).
          All-mono _ _ (λ a (y, z, vy, zx, h). (y, z, t.later uv vy, t.later zx xw, h)) (items n)
            (for_each-Clean t (turn n) (f n) (items n) v x g))
        namespaces
        (for_each-Clean t (λ n. for_each (turn n) (items n))
          (λ n. for_each-Forward t (turn n) (items n) (f n)) namespaces u w e)
