-- ===== src/Prelude/Words.antt =====
-- `SIZE_T` of global.h is a 32-bit word and `size_t` a 64-bit one. A value is a plain number, and
-- each operation writes out its wrap-around.
use Prim.Native.Nat.{ℕ, ◌+◌, ◌-◌, ◌*◌, ◌%◌, ◌^◌, ◌≤◌, ◌<◌}
use mathlib.Core.Path.{◌≡◌}
use native.Mathlib.Omega.{arith}
use native.Mathlib.Nat.{mod-eq_of_lt}

abbrev pub size_mod : ℕ
size_mod = 2 ^ 32

abbrev pub IsWord : ℕ → Type 0
IsWord a = a < size_mod

infixl 65 ◌+W◌ ◌-W◌
infixl 70 ◌*W◌
unfoldable pub ◌+W◌ : ℕ → ℕ → ℕ
a +W b = (a + b) % size_mod

unfoldable pub ◌-W◌ : ℕ → ℕ → ℕ
a -W b = (a + size_mod - b) % size_mod

unfoldable pub ◌*W◌ : ℕ → ℕ → ℕ
a *W b = (a * b) % size_mod

pub +W-eq : (a b : ℕ) → a + b < size_mod → a +W b ≡ a + b
unfolding ◌+W◌
+W-eq a b h = mod-eq_of_lt h

pub *W-eq : (a b : ℕ) → a * b < size_mod → a *W b ≡ a * b
unfolding ◌*W◌
*W-eq a b h = mod-eq_of_lt h

pub -W-eq : (a b : ℕ) → b ≤ a → a < size_mod → a -W b ≡ a - b
unfolding ◌-W◌
-W-eq a b h word = omega arith
