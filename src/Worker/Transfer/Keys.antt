-- ===== src/Worker/Transfer/Keys.antt =====
-- The local names of downloaded objects.
use yirang_taskforge.Prelude.{
  ◌≡◌, ◌≢◌, refl, ap, ◌++◌, ◌⊎◌, inl, inr, none, some, Option-cases, [], ◌∷◌, Text, All, arith,
}
use yirang_taskforge.Worker.Transfer.{after_last_slash, key_filename}

abbrev pub NoSlash : Text → Type 0
NoSlash s = All (λ c. c ≢ b'/') s

after_last_slash-none : (s : Text) → after_last_slash s ≡ none → NoSlash s
unfolding after_last_slash
after_last_slash-none [] h = tt
after_last_slash-none (c ∷ s) h = elim (Option-cases (after_last_slash s)) [
  | inl e ↦ (ground arith, after_last_slash-none s e)
  | inr (r, e) ↦ absurd (ground arith)
]

after_last_slash-some :
    (s r : Text)
    → after_last_slash s ≡ some r
    → NoSlash r × ((before : Text) × (before ++ b'/' ∷ r ≡ s))
unfolding after_last_slash
after_last_slash-some [] r h = absurd (cc)
after_last_slash-some (c ∷ s) r h = elim (Option-cases (after_last_slash s)) [
  | inl e ↦
      let same : s ≡ r = ground arith in
      let slash : c ≡ b'/' = ground arith in
      (rw (← same) (after_last_slash-none s e), ([], rw (same, slash)))
  | inr (t, e) ↦
      let (clear, (before, split)) = after_last_slash-some s t e in
      let same : t ≡ r = ground arith in
      (rw (← same) clear, (c ∷ before, rw (← same) (ap (λ u. c ∷ u) split)))
]

-- The local name of an object is the part of its key behind the last slash: it holds no slash, and
-- the key is that name alone, or ends in a slash and that name.
pub key_filename-NoSlash :
    (key : Text)
    → NoSlash (key_filename key)
      × ((key_filename key ≡ key) ⊎ ((before : Text) × (before ++ b'/' ∷ key_filename key ≡ key)))
unfolding key_filename
key_filename-NoSlash key = elim (Option-cases (after_last_slash key)) [
  | inl e ↦ rw (e, key_filename) (after_last_slash-none key e, inl refl)
  | inr (r, e) ↦
      let (clear, before) = after_last_slash-some key r e in
      rw (e, key_filename) (clear, inr before)
]
