-- ===== src/TaskExecutor/Tail.antt =====
-- `read_stdout_tail` cuts between characters.
use yirang_taskforge.Prelude.{
  ℕ, zero, suc, ◌-◌, ◌/◌, ◌%◌, ◌≤◌, ◌<◌, ◌≡◌, refl, ap, ◌∙◌, ◌++◌, true, false, some, [], ◌∷◌, Text,
  length, drop, length-drop, ltb, ◌==◌, arith, Bool-cases, inl, inr, append_assoc,
}
use yirang_taskforge.TaskExecutor.{
  is_continuation, boundary_offset, read_stdout_tail, stdout_tail_bytes,
}

abbrev IsTrail : ℕ → Type 0
IsTrail b = (128 ≤ b) × (b ≤ 191)

-- The byte sequences of one character, by the table of well-formed UTF-8.
abbrev pub IsChar : Text → Type 0
IsChar (a ∷ []) = a < 128
IsChar (a ∷ b ∷ []) = (194 ≤ a) × (a ≤ 223) × IsTrail b
IsChar (a ∷ b ∷ c ∷ []) =
    (224 ≤ a) × (a ≤ 239) × IsTrail b × IsTrail c × (a ≡ 224 → 160 ≤ b) × (a ≡ 237 → b ≤ 159)
IsChar (a ∷ b ∷ c ∷ d ∷ []) =
    (240 ≤ a)
    × (a ≤ 244)
    × IsTrail b
    × IsTrail c
    × IsTrail d
    × (a ≡ 240 → 144 ≤ b)
    × (a ≡ 244 → b ≤ 143)
IsChar _ = ⊥

pub data Utf8 : Text → Type 0 where
  done : Utf8 []
  char : (c s : Text) → IsChar c → Utf8 s → Utf8 (c ++ s)

skip : Text → Text
skip s = drop (boundary_offset s) s

trail_skips : (b : ℕ) (s : Text) → IsTrail b → skip (b ∷ s) ≡ skip s
unfolding skip boundary_offset is_continuation
trail_skips b s h = ground arith

lead_stays : (b : ℕ) (s : Text) → (b / 64 % 4 == 2) ≡ false → skip (b ∷ s) ≡ b ∷ s
unfolding skip boundary_offset is_continuation
lead_stays b s h = ground arith

-- A character is not cut, and begins with no continuation byte.
skip-char : (c s : Text) → IsChar c → skip (c ++ s) ≡ c ++ s
skip-char (a ∷ []) s h = lead_stays a s (ground arith)
skip-char (a ∷ b ∷ []) s h = lead_stays a (b ∷ s) (ground arith)
skip-char (a ∷ b ∷ c ∷ []) s h = lead_stays a (b ∷ c ∷ s) (ground arith)
skip-char (a ∷ b ∷ c ∷ d ∷ []) s h = lead_stays a (b ∷ c ∷ d ∷ s) (ground arith)
skip-char [] s h = absurd h
skip-char (_ ∷ _ ∷ _ ∷ _ ∷ _ ∷ _) s h = absurd h

skip-Utf8 : {s : Text} → Utf8 s → skip s ≡ s
unfolding skip boundary_offset
skip-Utf8 done = refl
skip-Utf8 (char c s h u) = skip-char c s h

-- A cut at any place: the rest of a cut character is skipped.
drop-char :
    (n : ℕ) (c s : Text)
    → IsChar c
    → Utf8 (c ++ s)
    → ((m : ℕ) → Utf8 (skip (drop m s)))
    → Utf8 (skip (drop n (c ++ s)))
drop-char zero c s h u rest = rw (skip-char c s h) u
drop-char (suc n) (a ∷ []) s h u rest = rest n
drop-char (suc zero) (a ∷ b ∷ []) s h u rest = rw (trail_skips b s h.2) (rest 0)
drop-char (suc (suc n)) (a ∷ b ∷ []) s h u rest = rest n
drop-char (suc zero) (a ∷ b ∷ c ∷ []) s h u rest =
    rw (trail_skips b (c ∷ s) h.2, trail_skips c s h.3) (rest 0)
drop-char (suc (suc zero)) (a ∷ b ∷ c ∷ []) s h u rest = rw (trail_skips c s h.3) (rest 0)
drop-char (suc (suc (suc n))) (a ∷ b ∷ c ∷ []) s h u rest = rest n
drop-char (suc zero) (a ∷ b ∷ c ∷ d ∷ []) s h u rest =
    rw (trail_skips b (c ∷ d ∷ s) h.2, trail_skips c (d ∷ s) h.3, trail_skips d s h.4) (rest 0)
drop-char (suc (suc zero)) (a ∷ b ∷ c ∷ d ∷ []) s h u rest =
    rw (trail_skips c (d ∷ s) h.3, trail_skips d s h.4) (rest 0)
drop-char (suc (suc (suc zero))) (a ∷ b ∷ c ∷ d ∷ []) s h u rest = rw (trail_skips d s h.4) (rest 0)
drop-char (suc (suc (suc (suc n)))) (a ∷ b ∷ c ∷ d ∷ []) s h u rest = rest n
drop-char (suc n) [] s h u rest = absurd h
drop-char (suc n) (_ ∷ _ ∷ _ ∷ _ ∷ _ ∷ _) s h u rest = absurd h

Utf8-drop : {s : Text} (n : ℕ) → Utf8 s → Utf8 (skip (drop n s))
unfolding skip boundary_offset
Utf8-drop zero done = done
Utf8-drop (suc n) done = done
Utf8-drop n (char c s h u) = drop-char n c s h (char c s h u) (λ m. Utf8-drop m u)

-- No more than three bytes are skipped.
trail_offset : (b : ℕ) (s : Text) → IsTrail b → boundary_offset (b ∷ s) ≡ suc (boundary_offset s)
unfolding boundary_offset is_continuation
trail_offset b s h = ground arith

lead_offset : (b : ℕ) (s : Text) → (b / 64 % 4 == 2) ≡ false → boundary_offset (b ∷ s) ≡ 0
unfolding boundary_offset is_continuation
lead_offset b s h = ground arith

offset-char : (c s : Text) → IsChar c → boundary_offset (c ++ s) ≡ 0
offset-char (a ∷ []) s h = lead_offset a s (ground arith)
offset-char (a ∷ b ∷ []) s h = lead_offset a (b ∷ s) (ground arith)
offset-char (a ∷ b ∷ c ∷ []) s h = lead_offset a (b ∷ c ∷ s) (ground arith)
offset-char (a ∷ b ∷ c ∷ d ∷ []) s h = lead_offset a (b ∷ c ∷ d ∷ s) (ground arith)
offset-char [] s h = absurd h
offset-char (_ ∷ _ ∷ _ ∷ _ ∷ _ ∷ _) s h = absurd h

offset-Utf8 : {s : Text} → Utf8 s → boundary_offset s ≡ 0
unfolding boundary_offset
offset-Utf8 done = refl
offset-Utf8 (char c s h u) = offset-char c s h

offset-drop-char :
    (n : ℕ) (c s : Text)
    → IsChar c
    → boundary_offset s ≡ 0
    → ((m : ℕ) → boundary_offset (drop m s) ≤ 3)
    → boundary_offset (drop n (c ++ s)) ≤ 3
offset-drop-char zero c s h z rest = rw (offset-char c s h) (omega arith)
offset-drop-char (suc n) (a ∷ []) s h z rest = rest n
offset-drop-char (suc zero) (a ∷ b ∷ []) s h z rest = omega (arith, trail_offset b s h.2)
offset-drop-char (suc (suc n)) (a ∷ b ∷ []) s h z rest = rest n
offset-drop-char (suc zero) (a ∷ b ∷ c ∷ []) s h z rest =
    omega (arith, trail_offset b (c ∷ s) h.2, trail_offset c s h.3)
offset-drop-char (suc (suc zero)) (a ∷ b ∷ c ∷ []) s h z rest = omega (arith, trail_offset c s h.3)
offset-drop-char (suc (suc (suc n))) (a ∷ b ∷ c ∷ []) s h z rest = rest n
offset-drop-char (suc zero) (a ∷ b ∷ c ∷ d ∷ []) s h z rest =
    omega (arith, trail_offset b (c ∷ d ∷ s) h.2, trail_offset c (d ∷ s) h.3, trail_offset d s h.4)
offset-drop-char (suc (suc zero)) (a ∷ b ∷ c ∷ d ∷ []) s h z rest =
    omega (arith, trail_offset c (d ∷ s) h.3, trail_offset d s h.4)
offset-drop-char (suc (suc (suc zero))) (a ∷ b ∷ c ∷ d ∷ []) s h z rest =
    omega (arith, trail_offset d s h.4)
offset-drop-char (suc (suc (suc (suc n)))) (a ∷ b ∷ c ∷ d ∷ []) s h z rest = rest n
offset-drop-char (suc n) [] s h z rest = absurd h
offset-drop-char (suc n) (_ ∷ _ ∷ _ ∷ _ ∷ _ ∷ _) s h z rest = absurd h

offset-drop : {s : Text} (n : ℕ) → Utf8 s → boundary_offset (drop n s) ≤ 3
unfolding boundary_offset
offset-drop zero done = omega arith
offset-drop (suc n) done = omega arith
offset-drop n (char c s h u) = offset-drop-char n c s h (offset-Utf8 u) (λ m. offset-drop m u)

drop-suffix : (n : ℕ) (s : Text) → (before : Text) × (before ++ drop n s ≡ s)
drop-suffix zero s = ([], refl)
drop-suffix (suc n) [] = ([], refl)
drop-suffix (suc n) (a ∷ s) = let (before, e) = drop-suffix n s in (a ∷ before, ap (λ t. a ∷ t) e)

read_stdout_tail_long :
    (contents : Text)
    → ltb stdout_tail_bytes (length contents) ≡ true
    → read_stdout_tail (some contents) ≡ skip (drop (length contents - stdout_tail_bytes) contents)
unfolding read_stdout_tail skip
read_stdout_tail_long contents long = ground arith

read_stdout_tail_short :
    (contents : Text)
    → ltb stdout_tail_bytes (length contents) ≡ false
    → read_stdout_tail (some contents) ≡ contents
unfolding read_stdout_tail
read_stdout_tail_short contents short =
    let none_left : length contents - length contents ≡ 0 = omega arith in
    let keep : drop (length contents - length contents) contents ≡ contents = rw none_left in
    ground arith

-- The captured tail of well-formed UTF-8 output is well-formed UTF-8, wherever the cut falls.
pub read_stdout_tail-Utf8 :
    (contents : Text) → Utf8 contents → Utf8 (read_stdout_tail (some contents))
read_stdout_tail-Utf8 contents u = elim (Bool-cases (ltb stdout_tail_bytes (length contents))) [
  | inl long ↦
      rw (read_stdout_tail_long contents long) (Utf8-drop (length contents - stdout_tail_bytes) u)
  | inr short ↦ rw (read_stdout_tail_short contents short) u
]

long_suffix :
    (contents : Text)
    → ltb stdout_tail_bytes (length contents) ≡ true
    → ((before : Text) × (before ++ skip (drop (length contents - stdout_tail_bytes) contents)
          ≡ contents))
      × (length (skip (drop (length contents - stdout_tail_bytes) contents)) ≤ 2048)
      × (length contents ≤ 2048
          → skip (drop (length contents - stdout_tail_bytes) contents) ≡ contents)
unfolding skip
long_suffix contents long =
    let at = length contents - stdout_tail_bytes in
    let (cut, e) = drop-suffix at contents in
    let (skipped, e') = drop-suffix (boundary_offset (drop at contents)) (drop at contents) in
    (
      (cut ++ skipped, append_assoc cut skipped _ ∙ ap (λ t. cut ++ t) e' ∙ e),
      omega (
        arith,
        length-drop (boundary_offset (drop at contents)) (drop at contents),
        length-drop at contents,
      ),
      λ small. absurd (ground arith),
    )

-- The captured tail is the end of the output: all of it up to 2048 bytes, and never more than 2048.
pub read_stdout_tail-suffix :
    (contents : Text)
    → ((before : Text) × (before ++ read_stdout_tail (some contents) ≡ contents))
      × (length (read_stdout_tail (some contents)) ≤ 2048)
      × (length contents ≤ 2048 → read_stdout_tail (some contents) ≡ contents)
read_stdout_tail-suffix contents = elim (Bool-cases (ltb stdout_tail_bytes (length contents))) [
  | inl long ↦ rw (read_stdout_tail_long contents long) (long_suffix contents long)
  | inr short ↦ rw (read_stdout_tail_short contents short) (([], refl), ground arith, λ _. refl)
]

-- Of a longer well-formed output at most three bytes less than 2048 are kept.
pub length-read_stdout_tail :
    (contents : Text)
    → Utf8 contents
    → 2048 < length contents
    → 2045 ≤ length (read_stdout_tail (some contents))
unfolding skip
length-read_stdout_tail contents u long =
    let at = length contents - stdout_tail_bytes in
    rw (read_stdout_tail_long contents (ground arith)) (
      omega (
        arith,
        length-drop (boundary_offset (drop at contents)) (drop at contents),
        length-drop at contents,
        offset-drop at u,
      ))
