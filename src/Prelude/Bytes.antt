-- ===== src/Prelude/Bytes.antt =====
-- `std::string`: a sequence of bytes. `bytes` turns a literal of the source (all are ASCII) into one.
use Prim.Native.Nat.{ℕ}
use Prim.Native.Char.{code}
use Prim.Native.String.{String}
use mathlib.Core.Path.{◌≡◌, refl, ap}
use mathlib.Core.Logic.{◌↔◌}
use mathlib.Core.Bool.{Bool, true, false, ◌&&◌}
use mathlib.Core.List.{List, [], ◌∷◌}
use native.Mathlib.Omega.{arith}
use yirang_taskforge.Prelude.Tests.{◌==◌, if◌then◌else◌}

abbrev pub Text : Type 0
Text = List ℕ

abbrev pub bytes : String → Text
bytes String.[] = []
bytes (String.◌∷◌ c s) = code c ∷ bytes s

-- `==` of two strings
abbrev pub text_eq : Text → Text → Bool
text_eq [] [] = true
text_eq [] (b ∷ t) = false
text_eq (a ∷ s) [] = false
text_eq (a ∷ s) (b ∷ t) = a == b && text_eq s t

pub text_eq_iff : (s t : Text) → (text_eq s t ≡ true) ↔ (s ≡ t)
text_eq_iff [] [] = ground arith
text_eq_iff [] (b ∷ t) = ground arith
text_eq_iff (a ∷ s) [] = ground arith
text_eq_iff (a ∷ s) (b ∷ t) = ground (arith, text_eq_iff s t)

pub text_eq_refl : (s : Text) → text_eq s s ≡ true
text_eq_refl s = (text_eq_iff s s).1 refl

-- `std::string x = y.c_str()`: the copy ends at the first NUL byte.
unfoldable pub c_str : Text → Text
c_str [] = []
c_str (b ∷ s) = if b == 0 then [] else b ∷ c_str s

abbrev pub NoNul : Text → Type 0
NoNul [] = Unit
NoNul (b ∷ s) = ((b == 0) ≡ false) × NoNul s

pub c_str_of_NoNul : (s : Text) → NoNul s → c_str s ≡ s
unfolding c_str
c_str_of_NoNul [] h = refl
c_str_of_NoNul (b ∷ s) (p, h) = rw p (ap (λ t. b ∷ t) (c_str_of_NoNul s h))
