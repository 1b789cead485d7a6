-- ===== src/Double.antt =====
-- What the code does with a `double`. It is a simulated time, in milliseconds.
use eecs.Prelude.{ℕ, Bool, Option, List}

pub record Double {ℓ} (D : Type ℓ) : Type ℓ where
  pub of_size : ℕ → D
  pub to_size : D → ℕ
  pub minus_one : D
  pub half : D
  pub le : D → D → Bool
  pub add : D → D → D
  pub sub : D → D → D
  pub mul : D → D → D
  pub div : D → D → D
  pub abs : D → D
  pub lt : D → D → Bool
  -- printf("%lf"), and sscanf("%lf"), which stores nothing where it finds no number
  pub print : D → List ℕ
  pub scan : List ℕ → Option D
  -- os << d
  pub show : D → List ℕ
