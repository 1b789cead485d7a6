-- ===== src/Disk/Config.antt =====
-- WriteConfig and ReadConfig of btree_lab/disksystem.cc: the text of the configuration file. What
-- fprintf returns is not looked at, and the device has room for the text here. A C string that is
-- empty where its last character is looked at, and the loop over comments at the end of the file,
-- which never ends, are the outcome `crash`.
pub mod RoundTrip
pub mod Enough
pub mod Ends
use eecs.Prelude.{
  ℕ, zero, suc, Bool, true, false, Option, List, [], ◌∷◌, length, ◌==◌, if◌then◌else◌,
}
use eecs.Error.{Error, no_error}
use eecs.Double.{Double}
use eecs.Outcome.{Outcome, ok, crash, ◌>>=◌}
use eecs.Text.{codes, print_unsigned, scan_unsigned, or_else, fgets, c_string}
use eecs.Text.Lines.{lines}
use eecs.Disk.{Disk}

-- buf[strlen(buf)-1] is taken away, if it is a newline.
unfoldable pub chomp : List ℕ → Outcome (List ℕ)
chomp [] = crash
chomp (c ∷ []) = ok (if c == b'\n' then [] else c ∷ [])
chomp (c ∷ e ∷ s) = do rest ← chomp (e ∷ s); ok (c ∷ rest)

-- The buffer and what is left of the file.
abbrev pub Input : Type 0
Input = List ℕ × List ℕ

-- `again` is what the next round does.
unfoldable pub accept : Outcome Input → Input → Outcome Input
accept again ([], rest) = crash
accept again (c ∷ buf, rest) = if c == b'#' then again else ok (c ∷ buf, rest)

-- GETNEXTVAL: each round takes a character of the file or meets its end.
unfoldable pub get_next_val : ℕ → Input → Outcome Input
unfolding accept
get_next_val zero i = crash
get_next_val (suc fuel) (buf, rest) =
    let i = fgets 79 buf rest in let again = get_next_val fuel i in accept again i

-- PARSEUNSIGNED
unfoldable pub parse_unsigned : List ℕ → ℕ → ℕ
parse_unsigned buf old = or_else (scan_unsigned (c_string buf)) old

module _ {ℓ} {D : Type ℓ} ⦃d : Double D⦄ where
  -- PARSEDOUBLE
  unfoldable pub parse_double : List ℕ → D → D
  parse_double buf old = or_else (d.scan (c_string buf)) old

  unfoldable pub write_config : Disk D → Disk D × Error
  write_config dk = (
    record dk {
      configfile = lines (
          codes "# disksystem config file version 0.9"
          ∷ codes "# filestem"
          ∷ dk.diskfilestem
          ∷ codes "# offset"
          ∷ print_unsigned dk.offset
          ∷ codes "# numblocks"
          ∷ print_unsigned dk.numblocks
          ∷ codes "# blocksize"
          ∷ print_unsigned dk.blocksize
          ∷ codes "# numheads"
          ∷ print_unsigned dk.numheads
          ∷ codes "# blockspertrack"
          ∷ print_unsigned dk.blockspertrack
          ∷ codes "# numtracks"
          ∷ print_unsigned dk.numtracks
          ∷ codes "# averageseeklatency"
          ∷ d.print dk.averageseeklatency
          ∷ codes "# trackseeklatency"
          ∷ d.print dk.trackseeklatency
          ∷ codes "# rotationalatency"
          ∷ d.print dk.rotationallatency
          ∷ []);
    },
    no_error,
  )

  -- ReadConfig with `fuel` rounds for each value.
  unfoldable pub read_config_within : ℕ → Disk D → Outcome (Disk D)
  read_config_within fuel dk = do
    let next = get_next_val fuel
    stem ← next ([], dk.configfile)
    name ← chomp (c_string stem.0)
    offset ← next stem
    numblocks ← next offset
    blocksize ← next numblocks
    numheads ← next blocksize
    blockspertrack ← next numheads
    numtracks ← next blockspertrack
    averageseek ← next numtracks
    trackseek ← next averageseek
    rotation ← next trackseek
    ok (record dk {
      diskfilestem = name;
      offset = parse_unsigned offset.0 dk.offset;
      numblocks = parse_unsigned numblocks.0 dk.numblocks;
      blocksize = parse_unsigned blocksize.0 dk.blocksize;
      numheads = parse_unsigned numheads.0 dk.numheads;
      blockspertrack = parse_unsigned blockspertrack.0 dk.blockspertrack;
      numtracks = parse_unsigned numtracks.0 dk.numtracks;
      averageseeklatency = parse_double averageseek.0 dk.averageseeklatency;
      trackseeklatency = parse_double trackseek.0 dk.trackseeklatency;
      rotationallatency = parse_double rotation.0 dk.rotationallatency;
    })

  -- The error code is always that of success. No value takes more rounds than the file has bytes
  -- and one more for its end.
  unfoldable pub read_config : Disk D → Outcome (Disk D)
  unfolding read_config_within
  read_config dk = read_config_within (suc (length dk.configfile)) dk
