-- ===== src/Bytes.antt =====
-- Memory that memcpy reads and writes, as the C++ code of btree_lab uses it: a range of a buffer,
-- and a 32-bit word in little-endian order.
pub mod Laws
use eecs.Prelude.{ℕ, zero, suc, ◌+◌, ◌*◌, ◌/◌, ◌%◌, List, [], ◌∷◌, take}

-- `n` bytes from the offset `off`
unfoldable pub slice : ℕ → ℕ → List ℕ → List ℕ
slice zero n xs = take n xs
slice (suc off) n [] = []
slice (suc off) n (x ∷ xs) = slice off n xs

unfoldable pub overwrite : List ℕ → List ℕ → List ℕ
overwrite [] xs = xs
overwrite (b ∷ bs) [] = []
overwrite (b ∷ bs) (x ∷ xs) = b ∷ overwrite bs xs

-- The buffer with `bs` written at the offset `off`.
unfoldable pub splice : ℕ → List ℕ → List ℕ → List ℕ
splice zero bs xs = overwrite bs xs
splice (suc off) bs [] = []
splice (suc off) bs (x ∷ xs) = x ∷ splice off bs xs

unfoldable pub encode_word : ℕ → List ℕ
encode_word w = w % 256 ∷ w / 256 % 256 ∷ w / 65536 % 256 ∷ w / 16777216 % 256 ∷ []

unfoldable pub decode_word : List ℕ → ℕ
decode_word (a ∷ b ∷ c ∷ d ∷ _) = a + 256 * b + 65536 * c + 16777216 * d
decode_word _ = 0
