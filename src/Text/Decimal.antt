-- ===== src/Text/Decimal.antt =====
-- Decimal numbers: what printf("%u") prints, sscanf("%u") and atoi read back.
use Prim.Native.Nat.{◌<◌}
use native.Mathlib.Nat.{mod-eq_of_lt}
use eecs.Prelude.{
  inl, inr, ℕ, zero, suc, ◌+◌, ◌/◌, ◌%◌, ◌≡◌, refl, ◌∙◌, true, Option, none, some, List, [], ◌∷◌,
  ◌++◌, Bool-cases, ltb, arith,
}
use eecs.Prelude.Words.{IsWord, size_mod, ◌-W◌}
use eecs.Text.{
  is_digit, emit, print_unsigned, skip_space, scan_digits, scan_number, scan_unsigned, scan_signed,
  negated, or_else, atoi,
}

emit-append : (fuel n : ℕ) (out s : List ℕ) → emit fuel n out ++ s ≡ emit fuel n (out ++ s)
unfolding emit
emit-append zero n out s = refl
emit-append (suc fuel) n out s = ground (arith, emit-append fuel (n / 10) ((b'0' + n % 10) ∷ out) s)

scan_digits-emit :
    (fuel n : ℕ) (out : List ℕ) → n < fuel → scan_digits 0 (emit fuel n out) ≡ scan_digits n out
unfolding emit scan_digits
scan_digits-emit zero n out h = absurd (omega arith)
scan_digits-emit (suc fuel) n out h =
    ground (arith, scan_digits-emit fuel (n / 10) ((b'0' + n % 10) ∷ out))

-- A text begins with a digit.
abbrev pub StartsWithDigit : List ℕ → Type 0
StartsWithDigit [] = ⊥
StartsWithDigit (c ∷ s) = is_digit c ≡ true

emit-StartsWithDigit : (fuel n : ℕ) (out : List ℕ) → n < fuel → StartsWithDigit (emit fuel n out)
unfolding emit
emit-StartsWithDigit zero n out h = absurd (omega arith)
emit-StartsWithDigit (suc fuel) n out h = elim (Bool-cases (ltb n 10)) [
  | inl small ↦ rw small (ground arith)
  | inr large ↦ rw large (emit-StartsWithDigit fuel (n / 10) ((b'0' + n % 10) ∷ out) (ground arith))
]

scan_unsigned-digit :
    (s : List ℕ) → StartsWithDigit s → scan_unsigned s ≡ some (scan_digits 0 s % size_mod)
unfolding scan_unsigned
scan_unsigned-digit [] h = absurd h
scan_unsigned-digit (c ∷ s) h = ground arith

pub print_unsigned-StartsWithDigit : (n : ℕ) (s : List ℕ) → StartsWithDigit (print_unsigned n ++ s)
unfolding print_unsigned
print_unsigned-StartsWithDigit n s =
    rw (emit-append (suc n) n [] s) (emit-StartsWithDigit (suc n) n s (omega arith))

scan_digits-newline : (n : ℕ) → scan_digits n (b'\n' ∷ []) ≡ n
unfolding scan_digits
scan_digits-newline n = ground arith

-- A word that is printed with a newline after it is read back.
pub scan_unsigned-print_unsigned :
    (n : ℕ) → IsWord n → scan_unsigned (print_unsigned n ++ b'\n' ∷ []) ≡ some n
unfolding print_unsigned
scan_unsigned-print_unsigned n word =
    scan_unsigned-digit _ (print_unsigned-StartsWithDigit n (b'\n' ∷ []))
    ∙ rw
        (
          emit-append (suc n) n [] (b'\n' ∷ []),
          scan_digits-emit (suc n) n (b'\n' ∷ []) (omega arith),
          scan_digits-newline n,
          mod-eq_of_lt word,
        )
        refl

negated-IsWord : (o : Option ℕ) → IsWord (or_else (negated o) 0)
unfolding ◌-W◌
negated-IsWord none = omega arith
negated-IsWord (some n) = omega arith

scan_number-IsWord : (s : List ℕ) → IsWord (or_else (scan_number s) 0)
unfolding scan_number
scan_number-IsWord [] = omega arith
scan_number-IsWord (c ∷ s) = ground arith

scan_signed-IsWord : (s : List ℕ) → IsWord (or_else (scan_signed s) 0)
scan_signed-IsWord [] = omega arith
scan_signed-IsWord (c ∷ s) =
    ground (arith, negated-IsWord (scan_number s), scan_number-IsWord s, scan_number-IsWord (c ∷ s))

-- atoi gives a word.
pub atoi-IsWord : (s : List ℕ) → IsWord (atoi s)
unfolding atoi scan_unsigned
atoi-IsWord s = scan_signed-IsWord (skip_space s)
