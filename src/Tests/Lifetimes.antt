-- ===== src/Tests/Lifetimes.antt =====
-- Witnesses of the theorems on loops, on freebuffer and on the life of a disk: a disk of 4 blocks of
-- 48 bytes, made by makedisk.
use eecs.Prelude.{
  ℕ, zero, suc, ◌<◌, get_or, ◌≡◌, refl, false, ◌&&◌, ltb, leb, if◌then◌else◌, List, [], ◌∷◌, length,
  arith,
}
use eecs.Error.{no_error}
use eecs.Bitmap.Laws.{IsBitmap}
use eecs.Outcome.{ok, crash}
use eecs.Text.{codes}
use eecs.Disk.{Disk, sanity_check_config, is_block_allocated}
use eecs.Disk.Blocks.{IsDisk, stored}
use eecs.Disk.Config.{get_next_val}
use eecs.Disk.Config.Ends.{Takes, get_next_val-Takes}
use eecs.Disk.Init.{Files, no_files, with_parameters, open_disk, close_disk}
use eecs.Disk.Init.Reopen.{IsReady}
use eecs.Disk.Init.Create.{IsFresh, created}
use eecs.BTree.Tree.{bare}
use eecs.Sim.{with_index, run}
use eecs.Sim.Answers.{text_of}
use eecs.Sim.Rounds.{Runs, run-Runs}
use eecs.Tools.{Exit}
use eecs.Tools.MakeDisk.{make_disk}
use eecs.Tools.BufferData.{free_buffer}
use eecs.Tools.BufferData.Freed.{open_disk-free_buffer}
use eecs.Tools.IndexTools.{btree_init}
use eecs.Tools.IndexTools.Sequences.{all_printed, run_requests}
use eecs.Tools.IndexTools.Lifetime.{Geometry, geometry_args, disk_of, make_disk-run_requests}
use eecs.Tests.{small_disk, whole_times}
use eecs.Tests.Openings.{blank-IsConfig, stem-IsValue, time-IsPrinted}
use eecs.Tests.Sessions.{no_insert, queries, requests}
use eecs.Tests.Trees.{tree_index}

abbrev commented : Disk ℕ
commented = record small_disk { configfile = codes "# stem\nd\n# offset" }

-- A comment before the value, and one at the end of the file.
get_next_val-Takes_example :
    Takes ([], commented.configfile) (get_next_val 30 ([], commented.configfile))
get_next_val-Takes_example = get_next_val-Takes 30 [] commented.configfile (omega arith)

run-Runs_example :
    Runs no_insert 2
      (text_of queries)
      (with_index tree_index)
      (run no_insert 2 200 (text_of queries) (with_index tree_index))
unfolding eecs.Sim.Answers.line_of
run-Runs_example = run-Runs no_insert 2 200 (text_of queries) (with_index tree_index) (omega arith)

abbrev geometry : Geometry
geometry = record {
  blocks = codes "4";
  blocksize = codes "48";
  heads = codes "1";
  blockspertrack = codes "2";
  tracks = codes "2";
  avgseek = codes "8";
  trackseek = codes "2";
  rotlat = codes "4";
}

geometry-IsFresh : IsFresh (no_files 1000) (disk_of ℕ (codes "d") geometry)
unfolding sanity_check_config with_parameters whole_times eecs.Text.atoi eecs.Text.scan_unsigned
    eecs.Prelude.Words.◌*W◌
geometry-IsFresh =
    let c = blank-IsConfig 4 48 (omega arith) (omega arith) in
    record {
      config = record {
        diskfilestem = stem-IsValue;
        offset = omega arith;
        numblocks = omega arith;
        blocksize = omega arith;
        numheads = omega arith;
        blockspertrack = omega arith;
        numtracks = omega arith;
        averageseeklatency = time-IsPrinted 8 (omega arith);
        trackseeklatency = time-IsPrinted 2 (omega arith);
        rotationallatency = time-IsPrinted 4 (omega arith);
      };
      sane = refl;
      some_block = omega arith;
      no_config = refl;
      no_bitmap = refl;
      room = omega arith;
    }

geometry-IsDisk : IsDisk (created (no_files 1000) (disk_of ℕ (codes "d") geometry))
unfolding with_parameters eecs.Text.atoi eecs.Text.scan_unsigned
geometry-IsDisk = record {
  positive = omega arith;
  numbered = omega arith;
  word = omega arith;
  fits = omega arith;
}

make_disk-run_requests_example :
    (e0 : Exit) × (make_disk ℕ (geometry_args (codes "d") geometry) (no_files 1000) ≡ ok e0)
    × (e0.status ≡ 0)
    × (e1 : Exit) × (btree_init ℕ (codes "d" ∷ codes "2" ∷ codes "2" ∷ codes "3" ∷ []) e0.files
        ≡ ok e1)
    × (e1.status ≡ 0)
    × (after : Files) × (run_requests ℕ 1 (codes "d") requests e1.files
        ≡ ok (all_printed ℕ 2 bare requests, after))
    × (make_disk ℕ (geometry_args (codes "d") geometry) after ≡ crash)
unfolding eecs.Text.atoi eecs.Text.scan_unsigned
make_disk-run_requests_example =
    make_disk-run_requests ℕ (no_files 1000) geometry 1 2 (codes "d") (codes "2") (codes "2")
      (codes "3") requests geometry-IsFresh geometry-IsDisk (omega arith) (omega arith)
      (omega arith) (refl, (tt, (tt, (refl, (tt, (tt, tt))))))

-- All 4 blocks are allocated.
abbrev full_disk : Disk ℕ
full_disk = record small_disk { bitmap = 15 ∷ [] }

full_disk-IsBitmap : IsBitmap 4 (15 ∷ [])
full_disk-IsBitmap = record { covers = omega arith; byte = small_byte }
  where
    small_byte : (i : ℕ) → get_or (15 ∷ []) i 0 < 256
    small_byte zero = omega arith
    small_byte (suc i) = omega arith

full_disk-IsReady : IsReady full_disk
unfolding sanity_check_config whole_times eecs.Prelude.Words.◌*W◌
full_disk-IsReady = record {
  config = record {
    diskfilestem = stem-IsValue;
    offset = omega arith;
    numblocks = omega arith;
    blocksize = omega arith;
    numheads = omega arith;
    blockspertrack = omega arith;
    numtracks = omega arith;
    averageseeklatency = time-IsPrinted 8 (omega arith);
    trackseeklatency = time-IsPrinted 2 (omega arith);
    rotationallatency = time-IsPrinted 4 (omega arith);
  };
  sane = refl;
  some_block = omega arith;
  bits = refl;
  room = omega arith;
}

full_disk-IsDisk : IsDisk full_disk
full_disk-IsDisk = record {
  positive = omega arith;
  numbered = omega arith;
  word = omega arith;
  fits = omega arith;
}

open_disk-free_buffer_example :
    (e : Exit) × (free_buffer ℕ
        (codes "d" ∷ codes "1" ∷ codes "1" ∷ codes "2" ∷ [])
        (close_disk 100 full_disk)
      ≡ ok e)
    × (e.status ≡ 0)
    × (e.out ≡ [])
    × (dk' : Disk ℕ) × (open_disk e.files (codes "d") ≡ ok (dk', no_error))
    × ((y : ℕ)
        → is_block_allocated dk' y
          ≡ (if leb 1 y && ltb y 3 then false else is_block_allocated full_disk y))
    × ((j : ℕ) → stored dk' j ≡ stored full_disk j)
unfolding eecs.Text.atoi eecs.Text.scan_unsigned
open_disk-free_buffer_example =
    open_disk-free_buffer full_disk 100 (codes "d") (codes "1") (codes "1") (codes "2")
      full_disk-IsReady full_disk-IsDisk full_disk-IsBitmap (omega arith)
