-- ===== src/World/Trace.antt =====
-- What a computation adds to the trace: postconditions over the result and the new events.
use yirang_taskforge.Prelude.{
  ◌≡◌, refl, sym, ap, ◌∙◌, ◌++◌, append_assoc, Bool, true, false, List, [], ◌∷◌, All, All-append,
  if◌then◌else◌,
}
use yirang_taskforge.World.{World, Event, Act, pure, call, ask, ◌>>=◌}

-- `m` ends, and its result and new events (the latest first) meet the postcondition.
pub record Runs {ℓ κ} {A : Type ℓ} (m : Act A) (Post : A → List Event → Type κ) : Type (ℓ ⊔ κ) where
  pub at : (w : World) → (new : List Event) × ((m w).1.trace ≡ new ++ w.trace) × Post (m w).0 new

abbrev pub Emits {ℓ κ} : {A : Type ℓ} → (Event → Type κ) → Act A → Type (ℓ ⊔ κ)
Emits P m = Runs m (λ _ new. All P new)

module _ {ℓ κ} {A : Type ℓ} {Post : A → List Event → Type κ} where
  pub Runs-pure : (a : A) → Post a [] → Runs (pure a) Post
  unfolding pure
  Runs-pure a p = record { at = λ w. ([], refl, p) }

  pub Runs-ask : (f : World → A) → ((w : World) → Post (f w) []) → Runs (ask f) Post
  unfolding ask
  Runs-ask f p = record { at = λ w. ([], refl, p w) }

  pub Runs-call :
      (e : Event) (f : World → A) → ((w : World) → Post (f w) (e ∷ [])) → Runs (call e f) Post
  unfolding call
  Runs-call e f p = record { at = λ w. (e ∷ [], refl, p w) }

  pub Runs-if :
      (b : Bool) (m n : Act A)
      → (b ≡ true → Runs m Post)
      → (b ≡ false → Runs n Post)
      → Runs (if b then m else n) Post
  Runs-if true m n rm rn = rm refl
  Runs-if false m n rm rn = rn refl

  pub Runs-weaken {μ} :
      {Weak : A → List Event → Type μ} (m : Act A)
      → Runs m Post
      → ((a : A) (new : List Event) → Post a new → Weak a new)
      → Runs m Weak
  Runs-weaken m r weaken = record {
    at = λ w. let (new, e, p) = r.at w in (new, e, weaken (m w).0 new p);
  }

module _ {ℓ κ μ ν} {A : Type ℓ} {B : Type κ} where
  pub Runs-bind :
      {Mid : A → List Event → Type μ} {Post : B → List Event → Type ν} (m : Act A) (f : A → Act B)
      → Runs m Mid
      → ((a : A) (first : List Event)
          → Mid a first
          → Runs (f a) (λ b later. Post b (later ++ first)))
      → Runs (m >>= f) Post
  unfolding ◌>>=◌
  Runs-bind m f rm rf = record {
    at = λ w.
        let (first, e, mid) = rm.at w in
        let (later, e', post) = (rf (m w).0 first mid).at (m w).1 in
        (
          later ++ first,
          e' ∙ ap (λ t. later ++ t) e ∙ sym (append_assoc later first w.trace),
          post,
        );
  }

module _ {ℓ κ μ} {A : Type ℓ} {B : Type κ} {P : Event → Type μ} where
  pub Emits-bind :
      (m : Act A) (f : A → Act B) → Emits P m → ((a : A) → Emits P (f a)) → Emits P (m >>= f)
  Emits-bind m f em ef =
      Runs-bind m f em
        λ a first h. Runs-weaken (f a) (ef a) λ b later k. All-append P later first k h

module _ {ℓ μ} {A : Type ℓ} {P : Event → Type μ} where
  pub Emits-pure : (a : A) → Emits P (pure a)
  Emits-pure a = Runs-pure a tt

  pub Emits-ask : (f : World → A) → Emits P (ask f)
  Emits-ask f = Runs-ask f (λ w. tt)

  pub Emits-call : (e : Event) (f : World → A) → P e → Emits P (call e f)
  Emits-call e f p = Runs-call e f (λ w. (p, tt))
