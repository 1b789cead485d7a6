-- ===== src/Block.antt =====
-- btree_lab/block.h and btree_lab/block.cc: a buffer with its length, and the two fields that the
-- buffer cache keeps in it. An allocation succeeds; bytes that the source leaves indeterminate
-- read as 0 here, and every caller writes them before it reads them.
pub mod Order
pub mod Hex
use Prim.Native.Nat.{compare, Ordering}
use mathlib.Core.Option
use eecs.Prelude.{
  ℕ, zero, suc, ◌-◌, min, max, Bool, true, false, ◌&&◌, Option, none, some, List, [], ◌∷◌, ◌++◌,
  length, take, replicate, leb, if◌then◌else◌,
}
use eecs.Error.{Error, no_error}
use eecs.Double.{Double}

pub record Block {ℓ} (D : Type ℓ) : Type ℓ where
  pub bytes : List ℕ
  pub length : ℕ
  pub lastaccessed : D
  pub dirty : Bool

module _ {ℓ} {D : Type ℓ} where
  -- The error is never ERROR_NOMEM.
  unfoldable pub resize : ℕ → Bool → Block D → Block D
  resize newlen copy b =
      let kept = (if copy then take (min newlen b.length) b.bytes else []) in
      record b { bytes = kept ++ replicate (newlen - length kept) 0; length = newlen }

  module _ ⦃d : Double D⦄ where
    -- Block::Block()
    abbrev pub empty : Block D
    empty = record { bytes = []; length = 0; lastaccessed = d.minus_one; dirty = false }

    -- Block::Block(const SIZE_T)
    unfoldable pub with_size : ℕ → Block D
    unfolding resize
    with_size s = resize s true empty

    -- Block::Block(const char *): `str` is the text up to its terminating zero byte.
    unfoldable pub of_text : List ℕ → Block D
    of_text str = record {
      bytes = str;
      length = length str;
      lastaccessed = d.minus_one;
      dirty = false;
    }

-- memcmp over `n` bytes; `none` where an operand has fewer, which is undefined.
unfoldable pub compare_bytes : ℕ → List ℕ → List ℕ → Ordering
compare_bytes (suc n) (x ∷ xs) (y ∷ ys) = elim (compare x y) [
  | Ordering.lt ↦ Ordering.lt
  | Ordering.eq ↦ compare_bytes n xs ys
  | Ordering.gt ↦ Ordering.gt
]
compare_bytes _ _ _ = Ordering.eq

unfoldable pub memcmp : ℕ → List ℕ → List ℕ → Option Ordering
unfolding compare_bytes
memcmp n xs ys =
    if leb n (length xs) && leb n (length ys) then some (compare_bytes n xs ys) else none

abbrev is_lt : Ordering → Bool
is_lt Ordering.lt = true
is_lt Ordering.eq = false
is_lt Ordering.gt = false

abbrev is_eq : Ordering → Bool
is_eq Ordering.lt = false
is_eq Ordering.eq = true
is_eq Ordering.gt = false

module _ {ℓ} {D : Type ℓ} where
  -- Block::operator< and Block::operator==
  unfoldable pub lt : Block D → Block D → Option Bool
  unfolding memcmp
  lt a b = Option.map is_lt (memcmp (max a.length b.length) a.bytes b.bytes)

  unfoldable pub eq : Block D → Block D → Option Bool
  unfolding memcmp
  eq a b = Option.map is_eq (memcmp (max a.length b.length) a.bytes b.bytes)
