-- ===== src/Worker/Entries.antt =====
-- What the worker does to the DLQ directory: postconditions over a result and the directory before
-- and after it.
pub mod Keeps
pub mod Message
pub mod Others
pub mod Backlog
pub mod Tests
use yirang_taskforge.Prelude.{
  ◌≡◌, refl, subst, Bool, true, false, List, Text, Expected, ok, unexpected, if◌then◌else◌,
}
use yirang_taskforge.World.{World, Event, Directory, Act, pure, call, ask, ◌>>=◌}
use yirang_taskforge.Worker.Transfer.{on_ok, ◌>>=?◌}

pub record Turns {ℓ κ} {A : Type ℓ} (m : Act A) (Post : A → Directory → Directory → Type κ)
    : Type (ℓ ⊔ κ) where
  pub at : (w : World) → Post (m w).0 w.dlq (m w).1.dlq

abbrev pub Keeps {ℓ} : {A : Type ℓ} → Act A → Type ℓ
Keeps m = Turns m (λ _ before after. after ≡ before)

module _ {ℓ κ} {A : Type ℓ} {Post : A → Directory → Directory → Type κ} where
  pub Turns-pure : (a : A) → ((d : Directory) → Post a d d) → Turns (pure a) Post
  unfolding pure
  Turns-pure a p = record { at = λ w. p w.dlq }

  pub Turns-ask : (f : World → A) → ((a : A) (d : Directory) → Post a d d) → Turns (ask f) Post
  unfolding ask
  Turns-ask f p = record { at = λ w. p (f w) w.dlq }

  pub Turns-call :
      (e : Event) (f : World → A) → ((a : A) (d : Directory) → Post a d d) → Turns (call e f) Post
  unfolding call
  Turns-call e f p = record { at = λ w. p (f w) w.dlq }

  pub Turns-if :
      (b : Bool) (m n : Act A) → Turns m Post → Turns n Post → Turns (if b then m else n) Post
  Turns-if true m n tm tn = tm
  Turns-if false m n tm tn = tn

module _ {ℓ κ μ} {A : Type ℓ} {B : Type κ} {Post : B → Directory → Directory → Type μ} where
  pub Turns-bind :
      (m : Act A) (f : A → Act B) → Keeps m → ((a : A) → Turns (f a) Post) → Turns (m >>= f) Post
  unfolding ◌>>=◌
  Turns-bind m f km tf = record {
    at = λ w.
        let kept : (m w).1.dlq ≡ w.dlq = km.at w in
        subst (λ d. Post (f (m w).0 (m w).1).0 d (f (m w).0 (m w).1).1.dlq) kept
          ((tf (m w).0).at (m w).1);
  }

module _ {ℓ κ μ} {A : Type ℓ} {B : Type κ}
    {Post : Expected B → Directory → Directory → Type μ} where
  Turns-on_ok :
      (r : Expected A) (f : A → Act (Expected B))
      → ((e : Text) (d : Directory) → Post (unexpected e) d d)
      → ((a : A) → Turns (f a) Post)
      → Turns (on_ok r f) Post
  Turns-on_ok (ok a) f failed tf = tf a
  Turns-on_ok (unexpected e) f failed tf = Turns-pure _ (failed e)

  pub Turns-bind_ok :
      (m : Act (Expected A)) (f : A → Act (Expected B))
      → Keeps m
      → ((e : Text) (d : Directory) → Post (unexpected e) d d)
      → ((a : A) → Turns (f a) Post)
      → Turns (m >>=? f) Post
  Turns-bind_ok m f km failed tf = Turns-bind m _ km λ r. Turns-on_ok r f failed tf

-- A relation that each step keeps, and their sequence then.
module _ {ℓ κ μ} {A : Type ℓ} {B : Type κ} (R : Directory → Directory → Type μ)
    (trans : (a b c : Directory) → R a b → R b c → R a c) where
  pub Turns-seq :
      (m : Act A) (f : A → Act B)
      → Turns m (λ _. R)
      → ((a : A) → Turns (f a) (λ _. R))
      → Turns (m >>= f) (λ _. R)
  unfolding ◌>>=◌
  Turns-seq m f tm tf = record {
    at = λ w. trans w.dlq (m w).1.dlq (f (m w).0 (m w).1).1.dlq (tm.at w) ((tf (m w).0).at (m w).1);
  }
