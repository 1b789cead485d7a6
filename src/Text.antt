-- ===== src/Text.antt =====
-- Text of the C and C++ libraries as btree_lab uses it: decimal numbers of printf("%u"), sscanf("%u")
-- and atoi, lines of fgets, and the characters and words of an input stream. A text is the list of
-- its bytes; a C string ends before its first zero byte.
pub mod Decimal
pub mod Lines
use Prim.Native.Char.{code}
use Prim.Native.String.{String}
use eecs.Prelude.{
  ℕ, zero, suc, ◌+◌, ◌-◌, ◌*◌, ◌/◌, ◌%◌, Bool, true, false, not, ◌&&◌, ◌||◌, Option, none, some,
  List, [], ◌∷◌, ◌++◌, leb, ltb, ◌==◌, if◌then◌else◌,
}
use eecs.Prelude.Words.{size_mod, ◌-W◌}

-- The bytes of a literal.
abbrev pub codes : String → List ℕ
codes String.[] = []
codes (String.◌∷◌ c s) = code c ∷ codes s

-- isspace(c)
abbrev pub is_space : ℕ → Bool
is_space c = c == 32 || (leb 9 c && leb c 13)

abbrev pub is_digit : ℕ → Bool
is_digit c = leb b'0' c && leb c b'9'

-- printf("%u", n): digits are put before `out`; one round for each digit, so `n + 1` are enough.
unfoldable pub emit : ℕ → ℕ → List ℕ → List ℕ
emit zero n out = out
emit (suc fuel) n out =
    let out' = (b'0' + n % 10) ∷ out in
    let rest = emit fuel (n / 10) out' in if ltb n 10 then out' else rest

unfoldable pub print_unsigned : ℕ → List ℕ
unfolding emit
print_unsigned n = emit (suc n) n []

unfoldable pub skip_space : List ℕ → List ℕ
skip_space [] = []
skip_space (c ∷ s) = if is_space c then skip_space s else c ∷ s

-- The number that the digits at the front spell, after `n`.
unfoldable pub scan_digits : ℕ → List ℕ → ℕ
scan_digits n [] = n
scan_digits n (c ∷ s) = if is_digit c then scan_digits (n * 10 + (c - b'0')) s else n

-- Digits as a 32-bit word; a number that no 64-bit word holds is undefined in the source.
unfoldable pub scan_number : List ℕ → Option ℕ
unfolding scan_digits
scan_number [] = none
scan_number (c ∷ s) = if is_digit c then some (scan_digits 0 (c ∷ s) % size_mod) else none

abbrev negated : Option ℕ → Option ℕ
negated none = none
negated (some n) = some (0 -W n)

abbrev scan_signed : List ℕ → Option ℕ
scan_signed [] = none
scan_signed (c ∷ s) =
    if c == b'-'
    then negated (scan_number s)
    else if c == b'+'
    then scan_number s
    else scan_number (c ∷ s)

-- sscanf(s, "%u", …), which stores nothing where it finds no number: `none`
unfoldable pub scan_unsigned : List ℕ → Option ℕ
unfolding skip_space scan_number
scan_unsigned s = scan_signed (skip_space s)

abbrev pub or_else {ℓ} : {A : Type ℓ} → Option A → A → A
or_else none a = a
or_else (some b) a = b

-- atoi(s), converted to SIZE_T
unfoldable pub atoi : List ℕ → ℕ
unfolding scan_unsigned
atoi s = or_else (scan_unsigned s) 0

-- A line of at most `n` characters, its newline included, and what follows it.
unfoldable pub take_line : ℕ → List ℕ → List ℕ × List ℕ
take_line zero s = ([], s)
take_line (suc n) [] = ([], [])
take_line (suc n) (c ∷ s) =
    let rest = take_line n s in if c == b'\n' then (c ∷ [], s) else (c ∷ rest.0, rest.1)

-- fgets(buf, n + 1, f) with the rest of the file: at its end the buffer keeps its contents.
unfoldable pub fgets : ℕ → List ℕ → List ℕ → List ℕ × List ℕ
unfolding take_line
fgets n buf [] = (buf, [])
fgets n buf (c ∷ s) = take_line n (c ∷ s)

-- The C string in a buffer.
unfoldable pub c_string : List ℕ → List ℕ
c_string [] = []
c_string (c ∷ s) = if c == 0 then [] else c ∷ c_string s

-- stream >> c, again and again: the characters that are no white space.
unfoldable pub visible : List ℕ → List ℕ
visible [] = []
visible (c ∷ s) = if is_space c then visible s else c ∷ visible s

-- stream >> word: white space is skipped, and the word goes up to the next white space.
unfoldable pub span_word : List ℕ → List ℕ × List ℕ
span_word [] = ([], [])
span_word (c ∷ s) =
    let rest = span_word s in if is_space c then ([], c ∷ s) else (c ∷ rest.0, rest.1)

unfoldable pub next_word : List ℕ → List ℕ × List ℕ
unfolding skip_space span_word
next_word s = span_word (skip_space s)
