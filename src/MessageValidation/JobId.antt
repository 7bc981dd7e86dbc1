-- ===== src/MessageValidation/JobId.antt =====
-- Which job ids `is_valid_job_id` accepts.
use yirang_taskforge.Prelude.{
  ℕ, ◌≤◌, ◌≡◌, refl, ◌↔◌, ◌⊎◌, true, [], ◌∷◌, Text, length, All, all, arith,
}
use yirang_taskforge.MessageValidation.{is_job_id_char, is_valid_job_id}

-- A letter, a digit, `-` or `_`.
abbrev pub IsJobIdChar : ℕ → Type 0
IsJobIdChar c =
    ((b'a' ≤ c) × (c ≤ b'z'))
    ⊎ (((b'A' ≤ c) × (c ≤ b'Z')) ⊎ (((b'0' ≤ c) × (c ≤ b'9')) ⊎ ((c ≡ b'-') ⊎ (c ≡ b'_'))))

pub record IsJobId (s : Text) : Type 0 where
  pub non_empty : 1 ≤ length s
  pub bounded : length s ≤ 64
  pub chars : All IsJobIdChar s

is_job_id_char_iff : (c : ℕ) → (is_job_id_char c ≡ true) ↔ IsJobIdChar c
unfolding is_job_id_char
is_job_id_char_iff c = ((λ h. ground arith), (λ h. ground arith))

all_chars_iff : (s : Text) → (all is_job_id_char s ≡ true) ↔ All IsJobIdChar s
all_chars_iff [] = ((λ _. tt), (λ _. refl))
all_chars_iff (c ∷ s) = ground (arith, is_job_id_char_iff c, all_chars_iff s)

-- `is_valid_job_id` accepts exactly the texts of 1 to 64 letters, digits, `-` and `_`.
pub is_valid_job_id_iff : (s : Text) → (is_valid_job_id s ≡ true) ↔ IsJobId s
unfolding is_valid_job_id
is_valid_job_id_iff [] = ((λ h. cc), (λ h. absurd (omega arith)))
is_valid_job_id_iff (c ∷ s) = (
  (λ h. record {
    non_empty = omega arith;
    bounded = ground arith;
    chars = (all_chars_iff (c ∷ s)).0 (ground arith);
  }),
  (λ h. let each = (all_chars_iff (c ∷ s)).1 h.chars in let fits = h.bounded in ground arith),
)
