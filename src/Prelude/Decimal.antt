-- ===== src/Prelude/Decimal.antt =====
-- `std::format("{}", n)` of an integer: its decimal digits.
use Prim.Native.Nat.{ℕ, zero, suc, ◌+◌, ◌-◌, ◌*◌, ◌/◌, ◌%◌, ◌<◌}
use mathlib.Core.Path.{◌≡◌, refl, sym, ap, ◌∙◌}
use mathlib.Core.List.{[], ◌∷◌}
use native.Mathlib.Omega.{arith}
use yirang_taskforge.Prelude.Tests.{ltb, if◌then◌else◌, Bool-cases}
use mathlib.Core.Logic.{inl, inr}
use yirang_taskforge.Prelude.Bytes.{Text, bytes}
use yirang_taskforge.Prelude.Int.{ℤ, pos, negsuc}

-- The digits of `n` before `later`; one round of fuel for each digit.
decimal_from : ℕ → ℕ → Text → Text
decimal_from zero n later = later
decimal_from (suc fuel) n later =
    let more = decimal_from fuel (n / 10) ((n % 10 + 48) ∷ later) in
    if ltb n 10 then (n + 48) ∷ later else more

unfoldable pub decimal : ℕ → Text
unfolding decimal_from
decimal n = decimal_from (suc n) n []

unfoldable pub int_text : ℤ → Text
unfolding decimal
int_text (pos n) = decimal n
int_text (negsuc n) = b'-' ∷ decimal (suc n)

-- The number that digits stand for.
unfoldable pub number_of : ℕ → Text → ℕ
number_of n [] = n
number_of n (d ∷ s) = number_of (n * 10 + (d - 48)) s

decimal_from-number_of :
    (fuel n : ℕ) (later : Text)
    → n < fuel
    → number_of 0 (decimal_from fuel n later) ≡ number_of n later
unfolding decimal_from number_of
decimal_from-number_of zero n later h = elim h [ ]
decimal_from-number_of (suc fuel) n later h = elim (Bool-cases (ltb n 10)) [
  | inl last ↦
      rw (last, decimal_from)
        (ap (λ k. number_of k later) (let e : 0 * 10 + (n + 48 - 48) ≡ n = omega arith in e))
  | inr more ↦
      rw (more, decimal_from)
        (decimal_from-number_of fuel (n / 10) ((n % 10 + 48) ∷ later) (ground arith)
          ∙ ap (λ k. number_of k later)
              (let e : n / 10 * 10 + (n % 10 + 48 - 48) ≡ n = omega arith in e))
]

pub number_of-decimal : (n : ℕ) → number_of 0 (decimal n) ≡ n
unfolding decimal number_of
number_of-decimal n = decimal_from-number_of (suc n) n [] (omega arith)

-- Different numbers have different digits.
pub decimal_injective : (n m : ℕ) → decimal n ≡ decimal m → n ≡ m
decimal_injective n m e = sym (number_of-decimal n) ∙ ap (number_of 0) e ∙ number_of-decimal m

digits_of_2048 : decimal 2048 ≡ bytes "2048"
unfolding decimal
digits_of_2048 = refl
