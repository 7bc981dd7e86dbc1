-- ===== src/Worker/Backoff.antt =====
-- `backoff_with_jitter` of Main/TaskForgeWorker.cpp: exponential delays with equal jitter.
pub mod Bounds
use yirang_taskforge.Prelude.{ℕ, ◌+◌, ◌-◌, ◌*◌, ◌/◌, ◌^◌, ltb, ℤ, pos, negsuc, if◌then◌else◌}
use yirang_taskforge.World.{World, Services, sleep_ms, Act, pure, ask, call, ◌>>=◌}

-- `(attempt > 1) ? (attempt - 1) : 0`, at most 16
unfoldable pub shift_of : ℤ → ℕ
shift_of (negsuc n) = 0
shift_of (pos n) = let shift = n - 1 in if ltb 16 shift then 16 else shift

unfoldable pub capped_delay : ℤ → ℕ → ℕ → ℕ
capped_delay attempt base_delay_ms max_delay_ms =
    let exponential = base_delay_ms * 2 ^ shift_of attempt in
    if ltb max_delay_ms exponential then max_delay_ms else exponential

module _ (services : Services) where
  unfoldable pub backoff_with_jitter : ℤ → ℕ → ℕ → Act ℕ
  backoff_with_jitter attempt base_delay_ms max_delay_ms =
      let capped = capped_delay attempt base_delay_ms max_delay_ms in
      ask (λ w. capped + services.draw w (capped / 2))

  -- `sleep_for(backoff_with_jitter(…))`
  unfoldable pub sleep_backoff : ℤ → ℕ → ℕ → Act (Unit {0})
  sleep_backoff attempt base_delay_ms max_delay_ms = do
    delay ← backoff_with_jitter attempt base_delay_ms max_delay_ms
    call (sleep_ms delay) (λ w. tt)
