-- ===== src/Bitmap.antt =====
-- The allocation bitmap of btree_lab/disksystem.cc: the macros GETBIT, SETBIT and CLEARBIT, and
-- the loops of the notification functions over a range of blocks. A block's bit is read within
-- the bitmap; outside it, where the source reads other memory, a bit reads as 0 here and a write
-- changes nothing.
pub mod Laws
use Prim.Native.Nat.{bit_and, bit_or}
use eecs.Prelude.{ℕ, zero, suc, ◌+◌, ◌-◌, ◌/◌, ◌%◌, ◌^◌, Bool, List, get_or, set, not, ◌==◌}

-- The place of block `x` in its byte, from the low end.
abbrev pub place : ℕ → ℕ
place x = 7 - x % 8

-- (byte >> i) & 0x1
unfoldable pub byte_bit : ℕ → ℕ → Bool
byte_bit b i = not (bit_and (b / 2 ^ i) 1 == 0)

unfoldable pub set_byte_bit : ℕ → ℕ → ℕ
set_byte_bit b i = bit_or b (2 ^ i)

-- On a byte `& ~(1 << i)` is `& (255 - (1 << i))`.
unfoldable pub clear_byte_bit : ℕ → ℕ → ℕ
clear_byte_bit b i = bit_and b (255 - 2 ^ i)

unfoldable pub get_bit : List ℕ → ℕ → Bool
get_bit bitmap x = byte_bit (get_or bitmap (x / 8) 0) (place x)

unfoldable pub set_bit : List ℕ → ℕ → List ℕ
set_bit bitmap x = set bitmap (x / 8) (set_byte_bit (get_or bitmap (x / 8) 0) (place x))

unfoldable pub clear_bit : List ℕ → ℕ → List ℕ
clear_bit bitmap x = set bitmap (x / 8) (clear_byte_bit (get_or bitmap (x / 8) 0) (place x))

-- for (i = x; i < x + n; i++) SETBIT(i), and the same with CLEARBIT
unfoldable pub set_bits : ℕ → ℕ → List ℕ → List ℕ
set_bits zero x bitmap = bitmap
set_bits (suc n) x bitmap = set_bits n (x + 1) (set_bit bitmap x)

unfoldable pub clear_bits : ℕ → ℕ → List ℕ → List ℕ
clear_bits zero x bitmap = bitmap
clear_bits (suc n) x bitmap = clear_bits n (x + 1) (clear_bit bitmap x)
