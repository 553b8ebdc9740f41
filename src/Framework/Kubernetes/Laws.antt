-- ===== src/Framework/Kubernetes/Laws.antt =====
-- What the checks rely on in the packages that they import: time only passes, `RetryOnConflict`
-- returns what the last attempt returned, and `PollUntilContextTimeout` calls its condition until it
-- is true or fails, or the deadline ends it.
use mathlib.Core.Path.{subst}
use rhobs.Base.{
  ◌≡◌, ap, if◌then◌else◌, Bool, true, false, String, List, Option, none, some, [], ◌∷◌,
}
use rhobs.Base.Dict.{Dict}
use rhobs.Framework.{
  Action, ErrorLists, joined, Result, returned, failed, crashed, ret, after, ◌>>=◌, caught, handle,
  for_each, deref,
}
use rhobs.Framework.Errors.{Failure, external}
use rhobs.Framework.Kubernetes.{Cluster, Duration}

-- The order of the states of the world in time.
pub record Time (W : Type 0) : Type 1 where
  pub Reaches : W → W → Type 0
  pub now : (w : W) → Reaches w w
  pub later : {u v w : W} → Reaches u v → Reaches v w → Reaches u w

module _ {W : Type 0} (t : Time W) where
  -- The world after a call comes after the world before it.
  abbrev pub Forward : {A : Type 0} → Action W A → Type 0
  Forward m = (w : W) → t.Reaches w (m w).1

  -- `P` held at a moment between two moments.
  abbrev pub Between : W → W → (W → Type 0) → Type 0
  Between u w P = (v : W) × t.Reaches u v × t.Reaches v w × P v

  -- A run of `RetryOnConflict`: of several attempts, all but the last one failed.
  pub data Retried (fn : Action W Unit) : W → Result Unit → W → Type 0 where
    last : {u v w : W} {r : Result Unit} → t.Reaches u v → fn v ≡ (r, w) → Retried fn u r w
    conflict :
        {u v x w : W} {r : Result Unit} {e : Failure}
        → t.Reaches u v
        → fn v ≡ (failed e, x)
        → Retried fn x r w
        → Retried fn u r w

  -- A run of `PollUntilContextTimeout`.
  pub data Polled (condition : Action W Bool) : W → Result Unit → W → Type 0 where
    deadline :
        {u w : W} {message : String}
        → t.Reaches u w
        → Polled condition u (failed (external message)) w
    holds :
        {u v w : W}
        → t.Reaches u v
        → condition v ≡ (returned true, w)
        → Polled condition u (returned tt) w
    breaks :
        {u v w : W} {e : Failure}
        → t.Reaches u v
        → condition v ≡ (failed e, w)
        → Polled condition u (failed e) w
    crashes :
        {u v w : W} → t.Reaches u v → condition v ≡ (crashed, w) → Polled condition u crashed w
    again :
        {u v x w : W} {r : Result Unit}
        → t.Reaches u v
        → condition v ≡ (returned false, x)
        → Polled condition x r w
        → Polled condition u r w

pub record Lawful {W : Type 0} (c : Cluster W) (t : Time W) : Type 1 where
  pub list_deployments_forward : (n : String) → Forward t (c.list_deployments n)
  pub get_deployment_forward : (n d : String) → Forward t (c.get_deployment n d)
  pub list_stateful_sets_forward : (n : String) → Forward t (c.list_stateful_sets n)
  pub get_stateful_set_forward : (n d : String) → Forward t (c.get_stateful_set n d)
  pub list_services_forward : (n : String) → Forward t (c.list_services n)
  pub get_service_forward : (n d : String) → Forward t (c.get_service n d)
  pub get_endpoints_forward : (n d : String) → Forward t (c.get_endpoints n d)
  pub list_pods_forward : (n : String) (l : Dict String String) → Forward t (c.list_pods n l)
  pub get_logs_forward : (n p x : String) → Forward t (c.get_logs n p x)
  pub retried :
      (fn : Action W Unit) (w : W)
      → Retried t fn w (c.retry_on_conflict fn w).0 (c.retry_on_conflict fn w).1
  pub polled :
      (i o : Duration) (condition : Action W Bool) (w : W)
      → Polled t condition w
          (c.poll_until_context_timeout i o condition w).0
          (c.poll_until_context_timeout i o condition w).1

module _ {W : Type 0} (t : Time W) where
  pub ret-Forward : {A : Type 0} (r : Result A) → Forward t (λ w. (r, w))
  ret-Forward r w = t.now w

  after-Forward :
      {A B : Type 0} (f : A → Action W B) (u : W) (x : Result A × W)
      → ((a : A) → Forward t (f a))
      → t.Reaches u x.1
      → t.Reaches u (after f x).1
  after-Forward f u (returned a, w) h r = t.later r (h a w)
  after-Forward f u (failed e, w) h r = r
  after-Forward f u (crashed, w) h r = r

  pub bind-Forward :
      {A B : Type 0} (m : Action W A) (f : A → Action W B)
      → Forward t m
      → ((a : A) → Forward t (f a))
      → Forward t (m >>= f)
  bind-Forward m f h k w = after-Forward f w (m w) k (h w)

  caught-Forward :
      {A B : Type 0} (g : Failure → Action W B) (f : A → Action W B) (u : W) (x : Result A × W)
      → ((e : Failure) → Forward t (g e))
      → ((a : A) → Forward t (f a))
      → t.Reaches u x.1
      → t.Reaches u (caught g f x).1
  caught-Forward g f u (returned a, w) k h r = t.later r (h a w)
  caught-Forward g f u (failed e, w) k h r = t.later r (k e w)
  caught-Forward g f u (crashed, w) k h r = r

  pub handle-Forward :
      {A B : Type 0} (m : Action W A) (g : Failure → Action W B) (f : A → Action W B)
      → Forward t m
      → ((e : Failure) → Forward t (g e))
      → ((a : A) → Forward t (f a))
      → Forward t (handle m g f)
  handle-Forward m g f h k l w = caught-Forward g f w (m w) k l (h w)

  pub deref-Forward : {A : Type 0} (p : Option A) → Forward t (deref p)
  deref-Forward none w = t.now w
  deref-Forward (some a) w = t.now w

  pub choice-Forward :
      {A : Type 0} (b : Bool) (m n : Action W A)
      → Forward t m
      → Forward t n
      → Forward t (if b then m else n)
  choice-Forward true m n h k w = h w
  choice-Forward false m n h k w = k w

  pub for_each-Forward :
      {A : Type 0} (f : A → Action W ErrorLists) (xs : List A)
      → ((a : A) → Forward t (f a))
      → Forward t (for_each f xs)
  for_each-Forward f [] h w = t.now w
  for_each-Forward f (a ∷ xs) h w =
      bind-Forward (f a) (λ x. for_each f xs >>= λ y. ret (joined x y)) (h a)
        (λ x.
          bind-Forward (for_each f xs) (λ y. ret (joined x y)) (λ w. for_each-Forward f xs h w)
            λ y w. t.now w)
        w

  snd : {A B : Type 0} {x : A × B} {a : A} {b : B} → x ≡ (a, b) → x.1 ≡ b
  snd e = ap (λ x. x.1) e

  pub Retried-Forward :
      (fn : Action W Unit)
      → Forward t fn
      → (u : W) (r : Result Unit) (w : W) → Retried t fn u r w
      → t.Reaches u w
  Retried-Forward fn h u r w (last {v} p e) = t.later p (subst (t.Reaches v) (snd e) (h v))
  Retried-Forward fn h u r w (conflict {v} {x} p e q) =
      t.later p (t.later (subst (t.Reaches v) (snd e) (h v)) (Retried-Forward fn h x r w q))

  pub Polled-Forward :
      (condition : Action W Bool)
      → Forward t condition
      → (u : W) (r : Result Unit) (w : W) → Polled t condition u r w
      → t.Reaches u w
  Polled-Forward k h u r w (deadline p) = p
  Polled-Forward k h u r w (holds {v} p e) = t.later p (subst (t.Reaches v) (snd e) (h v))
  Polled-Forward k h u r w (breaks {v} p e) = t.later p (subst (t.Reaches v) (snd e) (h v))
  Polled-Forward k h u r w (crashes {v} p e) = t.later p (subst (t.Reaches v) (snd e) (h v))
  Polled-Forward k h u r w (again {v} {x} p e q) =
      t.later p (t.later (subst (t.Reaches v) (snd e) (h v)) (Polled-Forward k h x r w q))
