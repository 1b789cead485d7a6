-- ===== src/Outcome/Exec.antt =====
-- Operations on a state `S`, in sequence.
use eecs.Outcome.{Outcome, ok, err, crash}

abbrev pub Exec {ℓ κ} : Type ℓ → Type κ → Type (ℓ ⊔ κ)
Exec S A = S → Outcome A × S

module _ {ℓ κ} {S : Type ℓ} {A : Type κ} where
  abbrev pub lift : Outcome A → Exec S A
  lift o s = (o, s)

  abbrev pub gets : (S → A) → Exec S A
  gets f s = (ok (f s), s)

module _ {ℓ} {S : Type ℓ} where
  abbrev pub modify : (S → S) → S → Outcome (Unit {0}) × S
  modify f s = (ok tt, f s)

module _ {ℓ κ η} {S : Type ℓ} {A : Type κ} {B : Type η} where
  abbrev pub after : Outcome A × S → (A → Exec S B) → Outcome B × S
  after (ok a, s) f = f a s
  after (err e, s) f = (err e, s)
  after (crash, s) f = (crash, s)

  infixl 5 ◌>>=◌ ◌>>◌
  abbrev pub ◌>>=◌ : Exec S A → (A → Exec S B) → Exec S B
  ◌>>=◌ m f s = after (m s) f

  abbrev pub ◌>>◌ : Exec S A → Exec S B → Exec S B
  m >> k = m >>= λ _. k
