-- ===== src/Bitmap/Laws.antt =====
-- A write of one bit changes that bit alone; the loops change a range.
use eecs.Prelude.{
  ℕ, zero, suc, ◌+◌, ◌*◌, ◌/◌, ◌≤◌, ◌<◌, ◌≡◌, refl, Bool, true, false, ◌&&◌, not, List, length,
  get_or, length-set, get_or-set, leb, ltb, ◌==◌, if◌then◌else◌, arith, holds_below,
  holds_below_lem,
}
use eecs.Bitmap.{
  byte_bit, set_byte_bit, clear_byte_bit, place, get_bit, set_bit, clear_bit, set_bits, clear_bits,
}

-- `a == b` as a number below 2, to compare two Booleans by evaluation.
abbrev same : Bool → Bool → Bool
same true b = b
same false b = not b

same_eq : (a b : Bool) → same a b ≡ true → a ≡ b
same_eq true b h = ground arith
same_eq false b h = ground arith

abbrev set_ok : ℕ → ℕ → ℕ → Bool
set_ok b i j =
    same (byte_bit (set_byte_bit b i) j) (if i == j then true else byte_bit b j)
    && ltb (set_byte_bit b i) 256

abbrev clear_ok : ℕ → ℕ → ℕ → Bool
clear_ok b i j =
    same (byte_bit (clear_byte_bit b i) j) (if i == j then false else byte_bit b j)
    && ltb (clear_byte_bit b i) 256

table : (ℕ → ℕ → ℕ → Bool) → Bool
table p = holds_below (λ b. holds_below (λ i. holds_below (λ j. p b i j) 8) 8) 256

table_sound :
    (p : ℕ → ℕ → ℕ → Bool) (b i j : ℕ) → table p ≡ true → b < 256 → i < 8 → j < 8 → p b i j ≡ true
unfolding table
table_sound p b i j h hb hi hj =
    holds_below_lem (p b i) 8
      (holds_below_lem (λ i. holds_below (p b i) 8) 8
        (holds_below_lem (λ b. holds_below (λ i. holds_below (p b i) 8) 8) 256 h b hb) i hi)
      j hj

set_table : table set_ok ≡ true
unfolding table holds_below byte_bit set_byte_bit
set_table = refl

clear_table : table clear_ok ≡ true
unfolding table holds_below byte_bit clear_byte_bit
clear_table = refl

byte_bit-set :
    (b i j : ℕ)
    → b < 256
    → i < 8
    → j < 8
    → (byte_bit (set_byte_bit b i) j ≡ (if i == j then true else byte_bit b j))
      × (set_byte_bit b i < 256)
byte_bit-set b i j hb hi hj = ground (
  arith,
  table_sound set_ok b i j set_table hb hi hj,
  same_eq (byte_bit (set_byte_bit b i) j) (if i == j then true else byte_bit b j),
)

byte_bit-clear :
    (b i j : ℕ)
    → b < 256
    → i < 8
    → j < 8
    → (byte_bit (clear_byte_bit b i) j ≡ (if i == j then false else byte_bit b j))
      × (clear_byte_bit b i < 256)
byte_bit-clear b i j hb hi hj = ground (
  arith,
  table_sound clear_ok b i j clear_table hb hi hj,
  same_eq (byte_bit (clear_byte_bit b i) j) (if i == j then false else byte_bit b j),
)

-- A bitmap for `n` blocks, of bytes.
pub record IsBitmap (n : ℕ) (bitmap : List ℕ) : Type 0 where
  pub covers : n ≤ 8 * length bitmap
  pub byte : (i : ℕ) → get_or bitmap i 0 < 256

module _ {n : ℕ} {bitmap : List ℕ} (m : IsBitmap n bitmap) (x : ℕ) (inside : x < n) where
  pub get_bit-set_bit :
      (y : ℕ) → get_bit (set_bit bitmap x) y ≡ (if x == y then true else get_bit bitmap y)
  unfolding get_bit set_bit
  get_bit-set_bit y = ground (
    arith,
    get_or-set bitmap (x / 8) (y / 8) (set_byte_bit (get_or bitmap (x / 8) 0) (place x)) 0,
    m.covers,
    byte_bit-set (get_or bitmap (x / 8) 0) (place x) (place y) (m.byte (x / 8)),
  )

  pub set_bit-IsBitmap : IsBitmap n (set_bit bitmap x)
  unfolding set_bit
  set_bit-IsBitmap = record {
    covers = rw length-set m.covers;
    byte = λ i. ground (
      arith,
      get_or-set bitmap (x / 8) i (set_byte_bit (get_or bitmap (x / 8) 0) (place x)) 0,
      m.covers,
      m.byte i,
      byte_bit-set (get_or bitmap (x / 8) 0) (place x) 0 (m.byte (x / 8)),
    );
  }

  pub get_bit-clear_bit :
      (y : ℕ) → get_bit (clear_bit bitmap x) y ≡ (if x == y then false else get_bit bitmap y)
  unfolding get_bit clear_bit
  get_bit-clear_bit y = ground (
    arith,
    get_or-set bitmap (x / 8) (y / 8) (clear_byte_bit (get_or bitmap (x / 8) 0) (place x)) 0,
    m.covers,
    byte_bit-clear (get_or bitmap (x / 8) 0) (place x) (place y) (m.byte (x / 8)),
  )

  pub clear_bit-IsBitmap : IsBitmap n (clear_bit bitmap x)
  unfolding clear_bit
  clear_bit-IsBitmap = record {
    covers = rw length-set m.covers;
    byte = λ i. ground (
      arith,
      get_or-set bitmap (x / 8) i (clear_byte_bit (get_or bitmap (x / 8) 0) (place x)) 0,
      m.covers,
      m.byte i,
      byte_bit-clear (get_or bitmap (x / 8) 0) (place x) 0 (m.byte (x / 8)),
    );
  }

-- In a bitmap for `b` blocks, setting the bits of a range of them keeps it one, sets those bits,
-- and changes no other.
pub get_bit-set_bits :
    {b : ℕ} (n x y : ℕ) {bitmap : List ℕ}
    → IsBitmap b bitmap
    → x + n ≤ b
    → IsBitmap b (set_bits n x bitmap)
      × (get_bit (set_bits n x bitmap) y
          ≡ (if leb x y && ltb y (x + n) then true else get_bit bitmap y))
unfolding set_bits
get_bit-set_bits zero x y m h = (m, ground arith)
get_bit-set_bits (suc n) x y m h =
    let (kept, bit) =
      get_bit-set_bits n (x + 1) y (set_bit-IsBitmap m x (omega arith)) (omega arith) in
    (kept, ground (arith, bit, get_bit-set_bit m x (omega arith) y))

-- In a bitmap for `b` blocks, clearing the bits of a range of them keeps it one, clears those bits,
-- and changes no other.
pub get_bit-clear_bits :
    {b : ℕ} (n x y : ℕ) {bitmap : List ℕ}
    → IsBitmap b bitmap
    → x + n ≤ b
    → IsBitmap b (clear_bits n x bitmap)
      × (get_bit (clear_bits n x bitmap) y
          ≡ (if leb x y && ltb y (x + n) then false else get_bit bitmap y))
unfolding clear_bits
get_bit-clear_bits zero x y m h = (m, ground arith)
get_bit-clear_bits (suc n) x y m h =
    let (kept, bit) =
      get_bit-clear_bits n (x + 1) y (clear_bit-IsBitmap m x (omega arith)) (omega arith) in
    (kept, ground (arith, bit, get_bit-clear_bit m x (omega arith) y))
