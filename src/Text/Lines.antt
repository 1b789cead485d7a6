-- ===== src/Text/Lines.antt =====
-- Lines of text, as fgets reads them.
use native.Mathlib.Nat.{pow-suc}
use eecs.Prelude.{
  ℕ, zero, suc, ◌+◌, ◌/◌, ◌%◌, ◌^◌, ◌≤◌, ◌<◌, ◌≡◌, ◌≢◌, List, [], ◌∷◌, ◌++◌, length, arith,
}
use eecs.Prelude.Words.{IsWord}
use eecs.Text.{emit, print_unsigned, take_line, fgets, c_string}

-- No newline and no zero byte.
abbrev pub IsLine : List ℕ → Type 0
IsLine [] = Unit {0}
IsLine (c ∷ s) = (c ≢ b'\n') × (c ≢ 0) × IsLine s

-- The file that holds these lines.
abbrev pub lines : List (List ℕ) → List ℕ
lines [] = []
lines (v ∷ vs) = v ++ b'\n' ∷ lines vs

pub IsLine-append : (v w : List ℕ) → IsLine v → IsLine w → IsLine (v ++ w)
IsLine-append [] w h k = k
IsLine-append (c ∷ v) w h k = (h.0, h.1, IsLine-append v w h.2 k)

pub take_line-line :
    (n : ℕ) (v s : List ℕ)
    → IsLine v
    → length v < n
    → take_line n (v ++ b'\n' ∷ s) ≡ (v ++ b'\n' ∷ [], s)
unfolding take_line
take_line-line zero v s h short = absurd (omega arith)
take_line-line (suc n) [] s h short = ground arith
take_line-line (suc n) (c ∷ v) s h short = ground (arith, take_line-line n v s h.2)

length-take_line_all : (n : ℕ) (s : List ℕ) → length (take_line n s).1 ≤ length s
unfolding take_line
length-take_line_all zero s = omega arith
length-take_line_all (suc n) [] = omega arith
length-take_line_all (suc n) (c ∷ s) = ground (arith, length-take_line_all n s)

-- A line takes a character at least.
pub length-take_line : (n c : ℕ) (s : List ℕ) → length (take_line (suc n) (c ∷ s)).1 ≤ length s
unfolding take_line
length-take_line n c s = ground (arith, length-take_line_all n s)

-- The same for a loop on fuel.
pub take_line_below :
    (n c k : ℕ) (s : List ℕ) → length (c ∷ s) < suc k → length (take_line (suc n) (c ∷ s)).1 < k
take_line_below n c k s h = omega (arith, length-take_line n c s)

pub fgets-line :
    (n : ℕ) (buf v s : List ℕ)
    → IsLine v
    → length v < n
    → fgets n buf (v ++ b'\n' ∷ s) ≡ (v ++ b'\n' ∷ [], s)
unfolding fgets
fgets-line n buf [] s h short = take_line-line n [] s h short
fgets-line n buf (c ∷ v) s h short = take_line-line n (c ∷ v) s h short

pub c_string-line : (v : List ℕ) → IsLine v → c_string (v ++ b'\n' ∷ []) ≡ v ++ b'\n' ∷ []
unfolding c_string
c_string-line [] h = ground arith
c_string-line (c ∷ v) h = ground (arith, c_string-line v h.2)

emit-IsLine : (fuel n : ℕ) (out : List ℕ) → IsLine out → IsLine (emit fuel n out)
unfolding emit
emit-IsLine zero n out h = h
emit-IsLine (suc fuel) n out h = ground (arith, emit-IsLine fuel (n / 10) ((b'0' + n % 10) ∷ out))

length-emit :
    (k fuel n : ℕ) (out : List ℕ) → n < 10 ^ suc k → length (emit fuel n out) ≤ suc k + length out
unfolding emit
length-emit k zero n out h = omega arith
length-emit zero (suc fuel) n out h = ground arith
length-emit (suc k) (suc fuel) n out h =
    let tenth : n / 10 < 10 ^ suc k = omega (arith, pow-suc 10 (suc k)) in
    ground (arith, length-emit k fuel (n / 10) ((b'0' + n % 10) ∷ out) tenth)

pub print_unsigned-IsLine : (n : ℕ) → IsLine (print_unsigned n)
unfolding print_unsigned
print_unsigned-IsLine n = emit-IsLine (suc n) n [] tt

pub length-print_unsigned : (n : ℕ) → IsWord n → length (print_unsigned n) ≤ 10
unfolding print_unsigned
length-print_unsigned n word = length-emit 9 (suc n) n [] (omega arith)
