-- ===== src/Worker/Transfer/Attempts.antt =====
-- How often a download is tried.
use yirang_taskforge.Prelude.{
  ℕ, zero, suc, ◌+◌, ◌≤◌, ◌≡◌, refl, ◌++◌, List, [], ◌∷◌, Text, ℤ, false, Expected, ok, unexpected,
  has_value, succ32, arith,
}
use yirang_taskforge.World.{Services, Event, s3_download, Act}
use yirang_taskforge.World.Trace.{Runs, Runs-pure, Runs-ask, Runs-call, Runs-bind, Runs-weaken}
use yirang_taskforge.Worker.Backoff.{backoff_with_jitter, sleep_backoff}
use yirang_taskforge.Worker.Transfer.{download_attempts, or_retry}

-- The number of downloads among the events.
abbrev pub downloads : List Event → ℕ
downloads [] = 0
downloads (s3_download bucket key path ∷ rest) = suc (downloads rest)
downloads (_ ∷ rest) = downloads rest

downloads-append : (es fs : List Event) → downloads (es ++ fs) ≡ downloads es + downloads fs
downloads-append [] fs = omega arith
downloads-append (s3_download bucket key path ∷ es) fs = omega (arith, downloads-append es fs)
downloads-append (_ ∷ es) fs = downloads-append es fs

-- At most `left` tries, and a failure only after all of them.
abbrev pub Tried : ℕ → Expected (Unit {0}) → List Event → Type 0
Tried left r new = (downloads new ≤ left) × (has_value r ≡ false → downloads new ≡ left)

module _ (services : Services) where
  sleep_backoff-downloads :
      (attempt : ℤ) (base most : ℕ)
      → Runs (sleep_backoff services attempt base most) (λ _ new. downloads new ≡ 0)
  unfolding sleep_backoff backoff_with_jitter
  sleep_backoff-downloads attempt base most =
      Runs-bind _ _ (Runs-ask {Post = λ d new. new ≡ []} _ (λ w. refl))
        λ delay first none_yet. Runs-call _ _ (λ w. rw none_yet)

  or_retry-Tried :
      (left : ℕ) (r : Expected (Unit {0})) (retry : Text → Act (Expected (Unit {0})))
      → ((e : Text) → Runs (retry e) (Tried left))
      → Runs
          (or_retry r retry)
          (λ b later. (downloads later ≤ left) × (has_value b ≡ false → downloads later ≡ left))
  or_retry-Tried left (ok tt) retry h = Runs-pure _ (omega arith, λ e. absurd (cc))
  or_retry-Tried left (unexpected e) retry h = h e

  -- A download with `left` attempts is tried at most `left` times, and fails only after that many
  -- tries.
  pub download_attempts-Tried :
      (left : ℕ) (attempt : ℤ) (bucket key path error : Text)
      → Runs (download_attempts services left attempt bucket key path error) (Tried left)
  unfolding download_attempts
  download_attempts-Tried zero attempt bucket key path error = Runs-pure _ (omega arith, λ e. refl)
  download_attempts-Tried (suc left) attempt bucket key path error =
      Runs-bind _ _ (Runs-call {Post = λ d new. downloads new ≡ 1} _ _ (λ w. refl)) λ r first one.
        Runs-weaken _
          (or_retry-Tried left r _ λ e.
            Runs-bind _ _ (sleep_backoff-downloads attempt 500 4000) λ _ slept calm.
              Runs-weaken _ (download_attempts-Tried left (succ32 attempt) bucket key path e)
                λ b later t. (
                  omega (arith, downloads-append later slept),
                  λ failed. omega (arith, downloads-append later slept, t.1 failed),
                ))
          λ b later t. (
            omega (arith, downloads-append later first),
            λ failed. omega (arith, downloads-append later first, t.1 failed),
          )
