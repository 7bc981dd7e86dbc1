-- ===== src/Prelude/Errors.antt =====
-- `std::expected<T, std::string>`.
use mathlib.Core.Path.{◌≡◌, refl}
use mathlib.Core.Bool.{Bool, true, false}
use yirang_taskforge.Prelude.Bytes.{Text}

pub data Expected {ℓ} (A : Type ℓ) : Type ℓ where
  ok : A → Expected A
  unexpected : Text → Expected A

abbrev pub has_value {ℓ} : {A : Type ℓ} → Expected A → Bool
has_value (ok a) = true
has_value (unexpected e) = false

infixl 5 ◌>>=◌ ◌>>◌
abbrev pub ◌>>=◌ {ℓ κ} : {A : Type ℓ} {B : Type κ} → Expected A → (A → Expected B) → Expected B
ok a >>= f = f a
unexpected e >>= f = unexpected e

abbrev pub ◌>>◌ {ℓ} : {B : Type ℓ} → Expected (Unit {0}) → Expected B → Expected B
m >> k = m >>= λ _. k

-- `if (!test) return std::unexpected(reason);`
abbrev pub guard : Bool → Text → Expected (Unit {0})
guard true reason = ok tt
guard false reason = unexpected reason

pub >>-eq-ok {ℓ} :
    {B : Type ℓ} (m : Expected (Unit {0})) (k : Expected B) {b : B}
    → (m >> k) ≡ ok b
    → (m ≡ ok tt) × (k ≡ ok b)
>>-eq-ok (ok tt) k h = (refl, h)
>>-eq-ok (unexpected e) k h = cc

pub guard-eq-ok : (b : Bool) (e : Text) → guard b e ≡ ok tt → b ≡ true
guard-eq-ok true e h = refl
guard-eq-ok false e h = cc
