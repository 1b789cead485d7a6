-- ===== src/Disk/Config/RoundTrip.antt =====
-- What WriteConfig has written, ReadConfig reads back.
use eecs.Prelude.{
  ℕ, zero, suc, ◌≤◌, ◌<◌, ◌≡◌, ◌≢◌, ◌∙◌, refl, Bool, true, false, ◌&&◌, some, List, [], ◌∷◌, ◌++◌,
  length, not, ltb, ◌==◌, arith,
}
use eecs.Prelude.Words.{IsWord}
use eecs.Double.{Double}
use eecs.Outcome.{ok}
use eecs.Text.{print_unsigned}
use eecs.Text.Decimal.{
  StartsWithDigit, scan_unsigned-print_unsigned, print_unsigned-StartsWithDigit,
}
use eecs.Text.Lines.{
  IsLine, fgets-line, c_string-line, print_unsigned-IsLine, length-print_unsigned,
}
use eecs.Disk.{Disk}
use eecs.Disk.Config.{
  chomp, accept, get_next_val, read_config_within, parse_unsigned, parse_double, write_config,
  read_config,
}

abbrev is_line : List ℕ → Bool
is_line [] = true
is_line (c ∷ s) = not (c == b'\n') && not (c == 0) && is_line s

abbrev is_comment : List ℕ → Bool
is_comment [] = false
is_comment (c ∷ s) = c == b'#' && is_line s && ltb (length s) 78

is_line-IsLine : (s : List ℕ) → is_line s ≡ true → IsLine s
is_line-IsLine [] h = tt
is_line-IsLine (c ∷ s) h = ground (arith, is_line-IsLine s)

abbrev Uncommented : List ℕ → Type 0
Uncommented [] = Unit {0}
Uncommented (c ∷ s) = c ≢ b'#'

-- A value that the buffer of 80 characters has room for, and that is not taken for a comment.
pub record IsValue (v : List ℕ) : Type 0 where
  pub line : IsLine v
  pub short : length v < 79
  pub uncommented : Uncommented v

get_next_val-comment :
    (fuel : ℕ) (buf c s : List ℕ)
    → is_comment c ≡ true
    → get_next_val (suc fuel) (buf, c ++ b'\n' ∷ s) ≡ get_next_val fuel (c ++ b'\n' ∷ [], s)
unfolding get_next_val accept
get_next_val-comment fuel buf [] s h = absurd (ground (arith, h))
get_next_val-comment fuel buf (c ∷ v) s h =
    let hash : (c == b'#') ≡ true = ground (arith, h) in
    rw (fgets-line 79 buf (c ∷ v) s (ground (arith, is_line-IsLine v, h)) (ground (arith, h)), hash)
      refl

get_next_val-value :
    (fuel : ℕ) (buf v s : List ℕ)
    → IsValue v
    → get_next_val (suc fuel) (buf, v ++ b'\n' ∷ s) ≡ ok (v ++ b'\n' ∷ [], s)
unfolding get_next_val accept
get_next_val-value fuel buf [] s h = rw (fgets-line 79 buf [] s h.line h.short) refl
get_next_val-value fuel buf (c ∷ v) s h =
    let plain : (c == b'#') ≡ false = ground (arith, h.uncommented) in
    rw (fgets-line 79 buf (c ∷ v) s h.line h.short, plain) refl

get_next_val-entry :
    (fuel : ℕ) (buf c v s : List ℕ)
    → 2 ≤ fuel
    → is_comment c ≡ true
    → IsValue v
    → get_next_val fuel (buf, c ++ b'\n' ∷ (v ++ b'\n' ∷ s)) ≡ ok (v ++ b'\n' ∷ [], s)
get_next_val-entry (suc (suc fuel)) buf c v s enough h value =
    get_next_val-comment (suc fuel) buf c (v ++ b'\n' ∷ s) h
    ∙ get_next_val-value fuel (c ++ b'\n' ∷ []) v s value
get_next_val-entry (suc zero) buf c v s enough h value = absurd (omega arith)
get_next_val-entry zero buf c v s enough h value = absurd (omega arith)

chomp-line : (v : List ℕ) → IsLine v → chomp (v ++ b'\n' ∷ []) ≡ ok v
unfolding chomp
chomp-line [] h = ground arith
chomp-line (c ∷ []) h = ground arith
chomp-line (c ∷ e ∷ v) h = ground (arith, chomp-line (e ∷ v) h.2)

StartsWithDigit-Uncommented : (v : List ℕ) → StartsWithDigit v → Uncommented v
StartsWithDigit-Uncommented [] h = tt
StartsWithDigit-Uncommented (c ∷ v) h = λ e. ground (arith, h, e)

StartsWithDigit-append : (v : List ℕ) → StartsWithDigit (v ++ []) → StartsWithDigit v
StartsWithDigit-append [] h = h
StartsWithDigit-append (c ∷ v) h = h

pub print_unsigned-IsValue : (n : ℕ) → IsWord n → IsValue (print_unsigned n)
print_unsigned-IsValue n word = record {
  line = print_unsigned-IsLine n;
  short = omega (arith, length-print_unsigned n word);
  uncommented =
      StartsWithDigit-Uncommented _
        (StartsWithDigit-append _ (print_unsigned-StartsWithDigit n []));
}

parse_unsigned-print_unsigned :
    (n old : ℕ) → IsWord n → parse_unsigned (print_unsigned n ++ b'\n' ∷ []) old ≡ n
unfolding parse_unsigned
parse_unsigned-print_unsigned n old word =
    rw (c_string-line _ (print_unsigned-IsLine n), scan_unsigned-print_unsigned n word) refl

module _ {ℓ} {D : Type ℓ} ⦃d : Double D⦄ where
  -- printf prints the time as a value that sscanf reads back.
  pub record IsPrinted (x : D) : Type ℓ where
    pub value : IsValue (d.print x)
    pub back : d.scan (d.print x ++ b'\n' ∷ []) ≡ some x

  parse_double-print : (x old : D) → IsPrinted x → parse_double (d.print x ++ b'\n' ∷ []) old ≡ x
  unfolding parse_double
  parse_double-print x old p = rw (c_string-line _ p.value.line, p.back) refl

  pub record IsConfig (dk : Disk D) : Type ℓ where
    pub diskfilestem : IsValue dk.diskfilestem
    pub offset : IsWord dk.offset
    pub numblocks : IsWord dk.numblocks
    pub blocksize : IsWord dk.blocksize
    pub numheads : IsWord dk.numheads
    pub blockspertrack : IsWord dk.blockspertrack
    pub numtracks : IsWord dk.numtracks
    pub averageseeklatency : IsPrinted dk.averageseeklatency
    pub trackseeklatency : IsPrinted dk.trackseeklatency
    pub rotationallatency : IsPrinted dk.rotationallatency

  -- The disk `dk'` with the configuration of `dk`.
  abbrev pub configured : Disk D → Disk D → Disk D
  configured dk dk' = record dk' {
    configfile = (write_config dk).0.configfile;
    diskfilestem = dk.diskfilestem;
    offset = dk.offset;
    numblocks = dk.numblocks;
    blocksize = dk.blocksize;
    numheads = dk.numheads;
    blockspertrack = dk.blockspertrack;
    numtracks = dk.numtracks;
    averageseeklatency = dk.averageseeklatency;
    trackseeklatency = dk.trackseeklatency;
    rotationallatency = dk.rotationallatency;
  }

  read_config_within-write_config :
      (fuel : ℕ) (dk dk' : Disk D)
      → 3 ≤ fuel
      → IsConfig dk
      → read_config_within fuel (record dk' { configfile = (write_config dk).0.configfile })
        ≡ ok (configured dk dk')
  unfolding read_config_within write_config
  read_config_within-write_config (suc (suc (suc fuel))) dk dk' enough h =
      let entry = λ (buf c v s : List ℕ) (m : is_comment c ≡ true) (value : IsValue v).
        get_next_val-entry (suc (suc (suc fuel))) buf c v s (omega arith) m value in
      rw
        (
          get_next_val-comment (suc (suc fuel)) [] _ _ refl,
          get_next_val-entry (suc (suc fuel)) _ _ dk.diskfilestem _ (omega arith) refl
              h.diskfilestem,
          c_string-line _ h.diskfilestem.line,
          chomp-line _ h.diskfilestem.line,
          entry _ _ (print_unsigned dk.offset) _ refl (print_unsigned-IsValue dk.offset h.offset),
          entry _ _ (print_unsigned dk.numblocks) _ refl (print_unsigned-IsValue _ h.numblocks),
          entry _ _ (print_unsigned dk.blocksize) _ refl (print_unsigned-IsValue _ h.blocksize),
          entry _ _ (print_unsigned dk.numheads) _ refl (print_unsigned-IsValue _ h.numheads),
          entry _ _ (print_unsigned dk.blockspertrack) _ refl
              (print_unsigned-IsValue _ h.blockspertrack),
          entry _ _ (print_unsigned dk.numtracks) _ refl (print_unsigned-IsValue _ h.numtracks),
          entry _ _ (d.print dk.averageseeklatency) _ refl h.averageseeklatency.value,
          entry _ _ (d.print dk.trackseeklatency) _ refl h.trackseeklatency.value,
          entry _ _ (d.print dk.rotationallatency) _ refl h.rotationallatency.value,
          parse_unsigned-print_unsigned dk.offset dk'.offset h.offset,
          parse_unsigned-print_unsigned dk.numblocks dk'.numblocks h.numblocks,
          parse_unsigned-print_unsigned dk.blocksize dk'.blocksize h.blocksize,
          parse_unsigned-print_unsigned dk.numheads dk'.numheads h.numheads,
          parse_unsigned-print_unsigned dk.blockspertrack dk'.blockspertrack h.blockspertrack,
          parse_unsigned-print_unsigned dk.numtracks dk'.numtracks h.numtracks,
          parse_double-print dk.averageseeklatency dk'.averageseeklatency h.averageseeklatency,
          parse_double-print dk.trackseeklatency dk'.trackseeklatency h.trackseeklatency,
          parse_double-print dk.rotationallatency dk'.rotationallatency h.rotationallatency,
        )
        refl
  read_config_within-write_config (suc (suc zero)) dk dk' enough h = absurd (omega arith)
  read_config_within-write_config (suc zero) dk dk' enough h = absurd (omega arith)
  read_config_within-write_config zero dk dk' enough h = absurd (omega arith)

  -- What WriteConfig has written, ReadConfig reads back into any disk object, whatever it held
  -- before: the file's stem and every parameter, if the stem is a line of less than 79 characters
  -- with no `#` at its front, the numbers are words, and printf prints each time as such a line
  -- that sscanf reads back.
  pub read_config-write_config :
      (dk dk' : Disk D)
      → IsConfig dk
      → read_config (record dk' { configfile = (write_config dk).0.configfile })
        ≡ ok (configured dk dk')
  unfolding read_config
  read_config-write_config dk dk' h =
      read_config_within-write_config _ dk dk' (unfold write_config in omega arith) h
