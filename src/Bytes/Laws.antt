-- ===== src/Bytes/Laws.antt =====
-- What is read of a buffer after a write to it.
use eecs.Prelude.{
  ℕ, zero, suc, ◌+◌, ◌≤◌, ◌≡◌, ◌⊎◌, refl, ap, List, [], ◌∷◌, length, take, length-take, arith,
}
use eecs.Prelude.Words.{IsWord}
use eecs.Bytes.{slice, overwrite, splice, encode_word, decode_word}

pub decode_word-encode_word : (w : ℕ) → IsWord w → decode_word (encode_word w) ≡ w
unfolding decode_word encode_word
decode_word-encode_word w h = omega arith

pub length-encode_word : (w : ℕ) → length (encode_word w) ≡ 4
unfolding encode_word
length-encode_word w = refl

length-overwrite : (bs xs : List ℕ) → length (overwrite bs xs) ≡ length xs
unfolding overwrite
length-overwrite [] xs = refl
length-overwrite (b ∷ bs) [] = refl
length-overwrite (b ∷ bs) (x ∷ xs) = ap suc (length-overwrite bs xs)

pub length-splice : (off : ℕ) (bs xs : List ℕ) → length (splice off bs xs) ≡ length xs
unfolding splice
length-splice zero bs xs = length-overwrite bs xs
length-splice (suc off) bs [] = refl
length-splice (suc off) bs (x ∷ xs) = ap suc (length-splice off bs xs)

pub length-slice : (off n : ℕ) (xs : List ℕ) → off + n ≤ length xs → length (slice off n xs) ≡ n
unfolding slice
length-slice zero n xs h = omega (arith, length-take n xs)
length-slice (suc off) n [] h = omega arith
length-slice (suc off) n (x ∷ xs) h = length-slice off n xs (omega arith)

take-overwrite_self :
    (bs xs : List ℕ) → length bs ≤ length xs → take (length bs) (overwrite bs xs) ≡ bs
unfolding overwrite
take-overwrite_self [] xs h = refl
take-overwrite_self (b ∷ bs) [] h = absurd (omega arith)
take-overwrite_self (b ∷ bs) (x ∷ xs) h = ap (◌∷◌ b) (take-overwrite_self bs xs (omega arith))

slice-splice_self :
    (off : ℕ) (bs xs : List ℕ)
    → off + length bs ≤ length xs
    → slice off (length bs) (splice off bs xs) ≡ bs
unfolding slice splice
slice-splice_self zero bs xs h = take-overwrite_self bs xs (omega arith)
slice-splice_self (suc off) bs [] h = absurd (omega arith)
slice-splice_self (suc off) bs (x ∷ xs) h = slice-splice_self off bs xs (omega arith)

-- The written range reads as the bytes written.
pub slice-splice :
    (off n : ℕ) (bs xs : List ℕ)
    → off + n ≤ length xs
    → length bs ≡ n
    → slice off n (splice off bs xs) ≡ bs
slice-splice off n bs xs h e = rw (← e) (slice-splice_self off bs xs (omega arith))

slice-overwrite :
    (off n : ℕ) (bs xs : List ℕ) → length bs ≤ off → slice off n (overwrite bs xs) ≡ slice off n xs
unfolding slice overwrite
slice-overwrite off n [] xs h = refl
slice-overwrite zero n (b ∷ bs) xs h = absurd (omega arith)
slice-overwrite (suc off) n (b ∷ bs) [] h = refl
slice-overwrite (suc off) n (b ∷ bs) (x ∷ xs) h = slice-overwrite off n bs xs (omega arith)

take-splice : (off n : ℕ) (bs xs : List ℕ) → n ≤ off → take n (splice off bs xs) ≡ take n xs
unfolding splice
take-splice off zero bs xs h = refl
take-splice zero (suc n) bs xs h = absurd (omega arith)
take-splice (suc off) (suc n) bs [] h = refl
take-splice (suc off) (suc n) bs (x ∷ xs) h = ap (◌∷◌ x) (take-splice off n bs xs (omega arith))

-- A range that does not meet the written one reads as before.
pub slice-splice_apart :
    (at n off : ℕ) (bs xs : List ℕ)
    → (at + n ≤ off) ⊎ (off + length bs ≤ at)
    → slice at n (splice off bs xs) ≡ slice at n xs
unfolding slice splice
slice-splice_apart zero zero zero bs xs h = refl
slice-splice_apart zero (suc n) zero bs xs h = slice-overwrite zero (suc n) bs xs (omega arith)
slice-splice_apart (suc at) n zero bs xs h = slice-overwrite (suc at) n bs xs (omega arith)
slice-splice_apart zero n (suc off) bs xs h = take-splice (suc off) n bs xs (omega arith)
slice-splice_apart (suc at) n (suc off) bs [] h = refl
slice-splice_apart (suc at) n (suc off) bs (x ∷ xs) h =
    slice-splice_apart at n off bs xs (omega arith)
