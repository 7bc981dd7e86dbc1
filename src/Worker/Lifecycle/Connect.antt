-- ===== src/Worker/Lifecycle/Connect.antt =====
-- How often the connection to Redis is tried.
use yirang_taskforge.Prelude.{
  ℕ, zero, suc, ◌+◌, ◌≤◌, ◌≡◌, refl, ◌++◌, List, [], ◌∷◌, Text, ℤ, pos, false, Expected, ok,
  unexpected, has_value, succ32, arith,
}
use yirang_taskforge.World.{Services, Event, redis_connect, Act}
use yirang_taskforge.World.Trace.{Runs, Runs-pure, Runs-ask, Runs-call, Runs-bind, Runs-weaken}
use yirang_taskforge.Worker.Backoff.{backoff_with_jitter, sleep_backoff}
use yirang_taskforge.Worker.Transfer.{on_ok, or_retry}
use yirang_taskforge.Worker.Lifecycle.{
  redis_connect_attempts, connect_once, connect_attempts, connect_redis,
}

-- The number of connections among the events.
abbrev pub connects : List Event → ℕ
connects [] = 0
connects (redis_connect ∷ rest) = suc (connects rest)
connects (_ ∷ rest) = connects rest

connects-append : (es fs : List Event) → connects (es ++ fs) ≡ connects es + connects fs
connects-append [] fs = omega arith
connects-append (redis_connect ∷ es) fs = omega (arith, connects-append es fs)
connects-append (_ ∷ es) fs = connects-append es fs

-- At most `left` connections, and a failure only after all of them.
abbrev pub ConnectTried : ℕ → Expected (Unit {0}) → List Event → Type 0
ConnectTried left r new = (connects new ≤ left) × (has_value r ≡ false → connects new ≡ left)

module _ (services : Services) where
  pub sleep_backoff-connects :
      (attempt : ℤ) (base most : ℕ)
      → Runs (sleep_backoff services attempt base most) (λ _ new. connects new ≡ 0)
  unfolding sleep_backoff backoff_with_jitter
  sleep_backoff-connects attempt base most =
      Runs-bind _ _ (Runs-ask {Post = λ d new. new ≡ []} _ (λ w. refl))
        λ delay first none_yet. Runs-call _ _ (λ w. rw none_yet)

  healthcheck-connects :
      (r : Expected (Unit {0})) (check : Act (Expected (Unit {0})))
      → Runs check (λ _ new. connects new ≡ 0)
      → Runs (on_ok r (λ _. check)) (λ _ new. connects new ≡ 0)
  healthcheck-connects (ok tt) check h = h
  healthcheck-connects (unexpected e) check h = Runs-pure _ refl

  pub connect_once-connects : Runs (connect_once services) (λ _ new. connects new ≡ 1)
  unfolding connect_once
  connect_once-connects =
      Runs-bind _ _ (Runs-call {Post = λ d new. connects new ≡ 1} _ _ (λ w. refl)) λ r first one.
        Runs-weaken _ (healthcheck-connects r _ (Runs-call _ _ (λ w. refl)))
          λ b later calm. omega (arith, connects-append later first)

  or_retry-ConnectTried :
      (left : ℕ) (r : Expected (Unit {0})) (retry : Text → Act (Expected (Unit {0})))
      → ((e : Text) → Runs (retry e) (ConnectTried left))
      → Runs
          (or_retry r retry)
          (λ b later. (connects later ≤ left) × (has_value b ≡ false → connects later ≡ left))
  or_retry-ConnectTried left (ok tt) retry h = Runs-pure _ (omega arith, λ e. absurd (cc))
  or_retry-ConnectTried left (unexpected e) retry h = h e

  connect_attempts-Tried :
      (left : ℕ) (attempt : ℤ) (error : Text)
      → Runs (connect_attempts services left attempt error) (ConnectTried left)
  unfolding connect_attempts
  connect_attempts-Tried zero attempt error = Runs-pure _ (omega arith, λ e. refl)
  connect_attempts-Tried (suc left) attempt error =
      Runs-bind _ _ connect_once-connects λ r first one.
        Runs-weaken _
          (or_retry-ConnectTried left r _ λ e.
            Runs-bind _ _ (sleep_backoff-connects attempt 500 4000) λ _ slept calm.
              Runs-weaken _ (connect_attempts-Tried left (succ32 attempt) e) λ b later t. (
                omega (arith, connects-append later slept),
                λ failed. omega (arith, connects-append later slept, t.1 failed),
              ))
          λ b later t. (
            omega (arith, connects-append later first),
            λ failed. omega (arith, connects-append later first, t.1 failed),
          )

  -- The connection to Redis is tried at most five times, and fails only after five tries.
  connect_redis-ConnectTried : Runs (connect_redis services) (ConnectTried 5)
  unfolding connect_redis
  connect_redis-ConnectTried = connect_attempts-Tried redis_connect_attempts (pos 1) []
