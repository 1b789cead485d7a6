-- ===== src/Block/Order.antt =====
-- Keys are compared by `operator<` and `operator==` of block.cc. Over blocks of one length they
-- are a total order; over blocks of two lengths the comparison reads past the shorter buffer.
use Prim.Native.Nat.{Ordering}
use eecs.Prelude.{
  ℕ, zero, suc, ◌≡◌, ◌⊎◌, ◌↔◌, refl, true, false, some, List, [], ◌∷◌, length, arith,
}
use eecs.Block.{Block, compare_bytes, lt, eq}

pub record IsBlock {ℓ} {D : Type ℓ} (n : ℕ) (b : Block D) : Type ℓ where
  pub size : length b.bytes ≡ n
  pub labelled : b.length ≡ n

pub compare_bytes-eq :
    (n : ℕ) (xs ys : List ℕ)
    → length xs ≡ n
    → length ys ≡ n
    → compare_bytes n xs ys ≡ Ordering.eq
    → xs ≡ ys
unfolding compare_bytes
compare_bytes-eq zero [] [] p q e = refl
compare_bytes-eq (suc n) (x ∷ xs) (y ∷ ys) p q e =
    ground (arith, compare_bytes-eq n xs ys (omega arith) (omega arith))
compare_bytes-eq n xs ys p q e = absurd (omega arith)

compare_bytes_self : (n : ℕ) (xs : List ℕ) → compare_bytes n xs xs ≡ Ordering.eq
unfolding compare_bytes
compare_bytes_self (suc n) (x ∷ xs) = ground (arith, compare_bytes_self n xs)
compare_bytes_self _ _ = refl

pub compare_bytes_flip :
    (n : ℕ) (xs ys : List ℕ)
    → (compare_bytes n xs ys ≡ Ordering.lt → compare_bytes n ys xs ≡ Ordering.gt)
      × (compare_bytes n xs ys ≡ Ordering.gt → compare_bytes n ys xs ≡ Ordering.lt)
unfolding compare_bytes
compare_bytes_flip (suc n) (x ∷ xs) (y ∷ ys) = ground (arith, compare_bytes_flip n xs ys)
compare_bytes_flip zero xs ys = ground arith
compare_bytes_flip (suc n) [] [] = ground arith
compare_bytes_flip (suc n) [] (y ∷ ys) = ground arith
compare_bytes_flip (suc n) (x ∷ xs) [] = ground arith

module _ {ℓ} {D : Type ℓ} {n : ℕ} where
  -- Over two blocks of one length `==` is equality of the bytes, exactly one of `<`, `==` and the
  -- reversed `<` holds, and none of the three reads past a buffer.
  pub lt_trichotomy :
      {a b : Block D}
      → IsBlock n a
      → IsBlock n b
      → ((eq a b ≡ some true) ↔ (a.bytes ≡ b.bytes))
        × (((lt a b ≡ some true) × (eq a b ≡ some false) × (lt b a ≡ some false))
            ⊎ ((lt a b ≡ some false) × (eq a b ≡ some true) × (lt b a ≡ some false))
            ⊎ ((lt a b ≡ some false) × (eq a b ≡ some false) × (lt b a ≡ some true)))
  unfolding lt eq
  lt_trichotomy {a} {b} p q = ground (
    arith,
    compare_bytes-eq n a.bytes b.bytes p.size q.size,
    compare_bytes_self n a.bytes,
    compare_bytes_flip n a.bytes b.bytes,
    compare_bytes_flip n b.bytes a.bytes,
  )
