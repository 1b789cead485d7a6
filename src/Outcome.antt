-- ===== src/Outcome.antt =====
-- How an operation of the B-tree ends: with its result, with an error code, or by the abort of a
-- failed assert or an access outside an object. The state is that at the end, in each case.
pub mod Exec
use eecs.Prelude.{◌≡◌, refl, Bool, true, false}
use eecs.Error.{Error}

pub data Outcome {ℓ} (A : Type ℓ) : Type ℓ where
  ok : A → Outcome A
  err : Error → Outcome A
  crash : Outcome A

infixl 5 ◌>>=◌ ◌>>◌
abbrev pub ◌>>=◌ {ℓ κ} : {A : Type ℓ} {B : Type κ} → Outcome A → (A → Outcome B) → Outcome B
ok a >>= f = f a
err e >>= f = err e
crash >>= f = crash

abbrev pub ◌>>◌ {ℓ κ} : {A : Type ℓ} {B : Type κ} → Outcome A → Outcome B → Outcome B
m >> k = m >>= λ _. k

-- assert(b)
abbrev pub assert : Bool → Outcome (Unit {0})
assert true = ok tt
assert false = crash

module _ {ℓ κ} {A : Type ℓ} {B : Type κ} where
  -- What follows an outcome matters only at the result that it has.
  pub bind_same :
      (o : Outcome A) (f f' : A → Outcome B)
      → ((a : A) → o ≡ ok a → f a ≡ f' a)
      → (o >>= f) ≡ (o >>= f')
  bind_same (ok a) f f' same = same a refl
  bind_same (err e) f f' same = refl
  bind_same crash f f' same = refl
