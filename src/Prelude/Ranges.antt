-- ===== src/Prelude/Ranges.antt =====
-- Slots of one size, one after the other.
use Prim.Native.Nat.{ℕ, ◌+◌, ◌*◌, ◌≤◌, ◌<◌}
use mathlib.Core.Logic.{◌≢◌, ◌⊎◌, inl, inr}
use native.Mathlib.Omega.{arith}
use native.Mathlib.Decide.{dec_lt}
use native.Mathlib.Nat.{mul-le-mul_right}

not_lt_le : (j k : ℕ) → ¬ (k < j) → j ≤ k
not_lt_le j k p = omega arith

lt_of_le_of_ne : (j k : ℕ) → ¬ (j < k) → j ≢ k → k < j
lt_of_le_of_ne j k p ne = omega arith

-- Blocks do not overlap: `j * n` and `k * n` are `n` apart.
pub blocks_apart :
    (off n j k : ℕ) → j ≢ k → (off + j * n + n ≤ off + k * n) ⊎ (off + k * n + n ≤ off + j * n)
blocks_apart off n j k ne = elim (dec_lt j k) [
  | yes p ↦ inl (omega (arith, mul-le-mul_right n p))
  | no p ↦ inr (omega (arith, mul-le-mul_right n (lt_of_le_of_ne j k p ne)))
]

-- The end of slot `k` of `m`.
pub slot-end-le : (n k m : ℕ) → k < m → k * n + n ≤ m * n
slot-end-le n k m h = omega (arith, mul-le-mul_right n h)

-- The first `a` bytes of slot `j` and the others of slot `k` do not meet.
pub slots_apart : (n j k a : ℕ) → a ≤ n → (j * n + a ≤ a + k * n) ⊎ (k * n + n ≤ j * n)
slots_apart n j k a h = elim (dec_lt k j) [
  | yes p ↦ inr (omega (arith, slot-end-le n k j p))
  | no p ↦ inl (omega (arith, mul-le-mul_right n (not_lt_le j k p)))
]
