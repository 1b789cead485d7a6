-- ===== src/Tests/Openings.antt =====
-- Witnesses of the theorems on the configuration, the constructors and the tools that move blocks: a
-- disk of 4 blocks of 2 bytes.
use eecs.Prelude.{ℕ, ◌<◌, ◌≡◌, refl, true, false, none, some, List, [], ◌∷◌, ◌++◌, length, arith}
use eecs.Error.{no_error, badconfig}
use eecs.Outcome.{ok, err}
use eecs.Text.{codes, visible}
use eecs.Text.Decimal.{scan_unsigned-print_unsigned}
use eecs.Disk
use eecs.Disk.{Disk, sanity_check_config, numbitmapbytes, is_block_allocated}
use eecs.Disk.Config.{write_config, read_config}
use eecs.Disk.Config.RoundTrip.{
  IsValue, IsPrinted, IsConfig, configured, print_unsigned-IsValue, read_config-write_config,
}
use eecs.Disk.Init.{no_files, construct, open_disk, close_disk}
use eecs.Disk.Init.Reopen.{IsReady, reopened, open_disk-close_disk}
use eecs.Disk.Init.Create.{IsFresh, created, construct-open_disk}
use eecs.Disk.Transfers.{bytes_of, read-write}
use eecs.Tools.{Exit}
use eecs.Tools.DiskData.{read_disk, write_disk}
use eecs.Tools.DiskData.RoundTrip.{read_disk-write_disk}
use eecs.Tools.BufferData.{read_buffer, write_buffer}
use eecs.Tools.BufferData.RoundTrip.{read_buffer-write_buffer}
use eecs.Tests.{blank, small_disk, small_disk-IsDisk, two_bytes, whole_times}

pub stem-IsValue : IsValue (codes "d")
stem-IsValue = record {
  line = ((λ e. omega arith), (λ e. omega arith), tt);
  short = omega arith;
  uncommented = λ e. omega arith;
}

pub time-IsPrinted : (n : ℕ) → n < 100 → IsPrinted n
unfolding whole_times
time-IsPrinted n small = record {
  value = print_unsigned-IsValue n (omega arith);
  back = scan_unsigned-print_unsigned n (omega arith);
}

pub blank-IsConfig : (n size : ℕ) → n < 100 → size < 100 → IsConfig (blank n size)
blank-IsConfig n size few small = record {
  diskfilestem = stem-IsValue;
  offset = omega arith;
  numblocks = omega arith;
  blocksize = omega arith;
  numheads = omega arith;
  blockspertrack = omega arith;
  numtracks = omega arith;
  averageseeklatency = time-IsPrinted 8 (omega arith);
  trackseeklatency = time-IsPrinted 2 (omega arith);
  rotationallatency = time-IsPrinted 4 (omega arith);
}

-- A disk of 4 blocks can be closed and opened.
pub blank-IsReady : (size : ℕ) → size < 100 → IsReady (blank 4 size)
unfolding sanity_check_config whole_times eecs.Prelude.Words.◌*W◌
blank-IsReady size small = record {
  config = blank-IsConfig 4 size (omega arith) small;
  sane = refl;
  some_block = omega arith;
  bits = refl;
  room = omega arith;
}

read_config-write_config_example :
    read_config (record (blank 4 2) { configfile = (write_config (blank 3 7)).0.configfile })
    ≡ ok (configured (blank 3 7) (blank 4 2))
read_config-write_config_example =
    read_config-write_config (blank 3 7) (blank 4 2)
      (blank-IsConfig 3 7 (omega arith) (omega arith))

open_disk-close_disk_example :
    open_disk (close_disk 100 small_disk) (codes "d") ≡ ok (reopened small_disk, no_error)
open_disk-close_disk_example =
    open_disk-close_disk small_disk 100 (codes "d") (blank-IsReady 2 (omega arith))

small_disk-IsFresh : IsFresh (no_files 100) small_disk
unfolding sanity_check_config whole_times eecs.Prelude.Words.◌*W◌
small_disk-IsFresh = record {
  config = blank-IsConfig 4 2 (omega arith) (omega arith);
  sane = refl;
  some_block = omega arith;
  no_config = refl;
  no_bitmap = refl;
  room = omega arith;
}

construct-open_disk_example :
    (construct (no_files 100) true small_disk ≡ ok (created (no_files 100) small_disk, no_error))
    × ((y : ℕ) → is_block_allocated (created (no_files 100) small_disk) y ≡ false)
    × (open_disk (close_disk 100 (created (no_files 100) small_disk)) (codes "d")
        ≡ ok (reopened (created (no_files 100) small_disk), no_error))
    × (construct (close_disk 100 (created (no_files 100) small_disk)) true small_disk
        ≡ err badconfig)
construct-open_disk_example =
    construct-open_disk (no_files 100) small_disk 100 (codes "d") small_disk-IsFresh

abbrev two_blocks : List (eecs.Block.Block ℕ)
two_blocks = two_bytes 65 66 ∷ two_bytes 67 68 ∷ []

read-write_example :
    ((Disk.write small_disk 1 2 two_blocks).rc ≡ no_error)
    × ((Disk.read (Disk.write small_disk 1 2 two_blocks).disk 1 2).rc ≡ no_error)
    × (bytes_of (Disk.read (Disk.write small_disk 1 2 two_blocks).disk 1 2).blocks ≡ codes "ABCD")
read-write_example = read-write small_disk-IsDisk 1 two_blocks (omega arith) (refl, (refl, tt))

abbrev run_args : List (List ℕ)
run_args = codes "d" ∷ codes "1" ∷ codes "2" ∷ []

read_disk-write_disk_example :
    (e : Exit) × (write_disk ℕ run_args (codes "A BC\nD") (close_disk 100 small_disk) ≡ ok e)
    × (e.status ≡ 0)
    × (e' : Exit) × (read_disk ℕ run_args e.files ≡ ok e')
    × (e'.status ≡ 0)
    × (e'.out ≡ codes "ABCD")
unfolding eecs.Text.atoi visible
read_disk-write_disk_example =
    read_disk-write_disk small_disk 100 (codes "d") (codes "1") (codes "2") (codes "A BC\nD")
      (blank-IsReady 2 (omega arith)) small_disk-IsDisk (omega arith) refl

read_buffer-write_buffer_example :
    (e : Exit) × (write_buffer ℕ
        (codes "d" ∷ codes "1" ∷ codes "1" ∷ codes "2" ∷ [])
        (codes "A BC\nD")
        (close_disk 100 small_disk)
      ≡ ok e)
    × (e.status ≡ 0)
    × (e' : Exit) × (read_buffer ℕ (codes "3" ∷ codes "d" ∷ codes "1" ∷ codes "2" ∷ []) e.files
        ≡ ok e')
    × (e'.status ≡ 0)
    × (e'.out ≡ codes "ABCD")
unfolding eecs.Text.atoi visible
read_buffer-write_buffer_example =
    read_buffer-write_buffer small_disk 100 (codes "d") (codes "1") (codes "3") (codes "1")
      (codes "2") (codes "A BC\nD") (blank-IsReady 2 (omega arith)) small_disk-IsDisk (omega arith)
      refl
