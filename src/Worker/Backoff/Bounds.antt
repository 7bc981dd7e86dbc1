-- ===== src/Worker/Backoff/Bounds.antt =====
-- The delays between attempts.
use yirang_taskforge.Prelude.{
  ℕ, ◌+◌, ◌-◌, ◌*◌, ◌/◌, ◌^◌, ◌≤◌, ◌<◌, ◌≡◌, ltb, ℤ, pos, negsuc, ◌≤ℤ◌, if◌then◌else◌, arith,
}
use Prim.Native.Nat.{min}
use yirang_taskforge.World.{World, Services, ◌>>=◌}
use yirang_taskforge.Worker.Backoff.{shift_of, capped_delay, backoff_with_jitter}
use native.Mathlib.Nat.{pow-le-pow_right}

shift_of-le : (attempt : ℤ) → shift_of attempt ≤ 16
unfolding shift_of
shift_of-le (pos n) = ground arith
shift_of-le (negsuc n) = omega arith

shift_of_mono : (a b : ℤ) → a ≤ℤ b → shift_of a ≤ shift_of b
unfolding shift_of
shift_of_mono (pos n) (pos m) h = ground arith
shift_of_mono (negsuc n) b h = omega arith
shift_of_mono (pos n) (negsuc m) h = absurd (omega arith)

pow_mono : (a b : ℕ) → a ≤ b → 2 ^ a ≤ 2 ^ b
pow_mono a b h = pow-le-pow_right {n = 2} (omega arith) h

capped_delay-le : (attempt : ℤ) (base most : ℕ) → capped_delay attempt base most ≤ most
unfolding capped_delay
capped_delay-le attempt base most = ground arith

-- The delay that is drawn lies between the capped exponential delay and one and a half times it, and
-- so never passes one and a half times the maximum, if a draw does not pass its bound.
pub backoff_bounds :
    (services : Services) (attempt : ℤ) (base most : ℕ) (w : World)
    → ((v : World) (n : ℕ) → services.draw v n ≤ n)
    → (capped_delay attempt base most ≤ (backoff_with_jitter services attempt base most w).0)
      × (2 * (backoff_with_jitter services attempt base most w).0
          ≤ 3 * capped_delay attempt base most)
      × (2 * (backoff_with_jitter services attempt base most w).0 ≤ 3 * most)
unfolding backoff_with_jitter ◌>>=◌
backoff_bounds services attempt base most w drawn =
    let fits = drawn w (capped_delay attempt base most / 2) in
    let capped = capped_delay-le attempt base most in (omega arith, omega arith, omega arith)

-- A later attempt never has a shorter capped delay.
capped_delay_mono :
    (a b : ℤ) (base most : ℕ) → a ≤ℤ b → capped_delay a base most ≤ capped_delay b base most
unfolding capped_delay
capped_delay_mono a b base most h =
    let powers = pow_mono (shift_of a) (shift_of b) (shift_of_mono a b h) in
    let delays : base * 2 ^ shift_of a ≤ base * 2 ^ shift_of b = grind arith in ground arith

-- Each of the first 17 attempts waits for the base delay, doubled with each attempt before it, up
-- to the maximum; and the product stays below 2 ^ 63 for a base below 2 ^ 31, so it does not
-- overflow.
capped_delay_doubles :
    (n base most : ℕ)
    → n ≤ 16
    → base < 2 ^ 31
    → (capped_delay (pos (n + 1)) base most ≡ min most (base * 2 ^ n)) × (base * 2 ^ n < 2 ^ 63)
unfolding capped_delay shift_of
capped_delay_doubles n base most few small =
    let shift : (if ltb 16 (n + 1 - 1) then 16 else n + 1 - 1) ≡ n = ground arith in
    let powers : 2 ^ n ≤ 65536 = pow_mono n 16 few in
    let product : base * 2 ^ n ≤ base * 65536 = grind arith in
    (rw shift (ground arith), omega arith)
