-- ===== src/Block/Hex.antt =====
-- Block::Print of btree_lab/block.cc, with high2hex and low2hex.
use eecs.Prelude.{
  ℕ, Bool, true, false, List, [], ◌∷◌, ◌++◌, take, ◌+◌, ◌-◌, ◌*◌, ◌/◌, ◌%◌, ◌<◌, ◌≡◌, arith, ltb,
  if◌then◌else◌,
}
use eecs.Double.{Double}
use eecs.Block.{Block}
use eecs.Text.{codes, print_unsigned}

-- The digit of a number below 16.
abbrev digit : ℕ → ℕ
digit x = if ltb x 10 then b'0' + x else b'a' + (x - 10)

unfoldable pub high2hex : ℕ → ℕ
high2hex x = digit (x / 16 % 16)

unfoldable pub low2hex : ℕ → ℕ
low2hex x = digit (x % 16)

-- The digits of the bytes.
unfoldable pub hex : List ℕ → List ℕ
hex [] = []
hex (x ∷ xs) = high2hex x ∷ low2hex x ∷ hex xs

abbrev flag : Bool → List ℕ
flag true = codes "1"
flag false = codes "0"

module _ {ℓ} {D : Type ℓ} ⦃d : Double D⦄ where
  -- Block::Print
  unfoldable pub print_block : Block D → List ℕ
  print_block b =
      codes "Block(length="
      ++ print_unsigned b.length
      ++ codes ", data=0x"
      ++ hex (take b.length b.bytes)
      ++ codes ", lastaccessed="
      ++ d.show b.lastaccessed
      ++ codes ", dirty="
      ++ flag b.dirty
      ++ codes ")"

-- The number that a digit stands for.
abbrev pub hex_value : ℕ → ℕ
hex_value c = if ltb c b'a' then c - b'0' else c - b'a' + 10

-- The two hexadecimal digits that are printed for a byte stand for it.
pub hex_value_lem : (x : ℕ) → x < 256 → hex_value (high2hex x) * 16 + hex_value (low2hex x) ≡ x
unfolding high2hex low2hex
hex_value_lem x h = ground arith
