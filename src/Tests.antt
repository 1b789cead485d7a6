-- ===== src/Tests.antt =====
-- Small disks and caches, with times in whole milliseconds, for the tests and the witnesses of the
-- theorems on the code of btree_lab.
pub mod Disks
pub mod Caches
pub mod Files
pub mod Nodes
pub mod Trees
pub mod Histories
pub mod Openings
pub mod Sessions
pub mod StoredTrees
pub mod Lifetimes
use eecs.Prelude.{ℕ, ◌+◌, ◌-◌, ◌*◌, ◌/◌, List, [], ◌∷◌, false, leb, ltb, arith}
use eecs.Double.{Double}
use eecs.Block.{Block}
use eecs.File.{File}
use eecs.Text.{codes, print_unsigned, scan_unsigned}
use eecs.Disk.{Disk}
use eecs.Disk.Blocks.{IsDisk}
use eecs.Cache.{Cache, init}
use eecs.Cache.Coherent.{IsCoherent, init-IsCoherent}

instance pub whole_times : Double ℕ
whole_times = record {
  of_size = λ n. n;
  to_size = λ n. n;
  minus_one = 0;
  half = 1;
  le = leb;
  add = λ a b. a + b;
  sub = λ a b. a - b;
  mul = λ a b. a * b;
  div = λ a b. a / b;
  abs = λ a. a;
  lt = ltb;
  print = print_unsigned;
  scan = scan_unsigned;
  show = print_unsigned;
}

abbrev pub empty_file : File
empty_file = record { size = 0; byte = λ _. 0; limit = 1000 }

-- `n` blocks of `size` bytes after a header of 4, on tracks of 2 blocks
abbrev pub blank : ℕ → ℕ → Disk ℕ
blank n size = record {
  bitmap = 0 ∷ [];
  datafile = empty_file;
  bitmapfile = empty_file;
  configfile = [];
  diskfilestem = codes "d";
  offset = 4;
  numblocks = n;
  blocksize = size;
  numheads = 1;
  blockspertrack = 2;
  numtracks = 2;
  last_track = 0;
  last_sector = 0;
  averageseeklatency = 8;
  trackseeklatency = 2;
  rotationallatency = 4;
}

abbrev pub small_disk : Disk ℕ
small_disk = blank 4 2

pub small_disk-IsDisk : IsDisk small_disk
small_disk-IsDisk = record {
  positive = omega arith;
  numbered = omega arith;
  word = omega arith;
  fits = omega arith;
}

-- A cache of one block, so that every second block brings an eviction.
abbrev pub blank_cache : Disk ℕ → Cache ℕ
blank_cache dk = record {
  disk = dk;
  cachesize = 1;
  blockmap = [];
  curtime = 0;
  allocs = 0;
  deallocs = 0;
  reads = 0;
  writes = 0;
  diskreads = 0;
  diskwrites = 0;
}

pub blank_cache-IsCoherent : (dk : Disk ℕ) → IsDisk dk → IsCoherent (blank_cache dk)
unfolding init whole_times
blank_cache-IsCoherent dk h = (init-IsCoherent dk 1 h).0

abbrev pub small_cache : Cache ℕ
small_cache = blank_cache small_disk

pub small_cache-IsCoherent : IsCoherent small_cache
small_cache-IsCoherent = blank_cache-IsCoherent small_disk small_disk-IsDisk

abbrev pub two_bytes : ℕ → ℕ → Block ℕ
two_bytes a b = record { bytes = a ∷ b ∷ []; length = 2; lastaccessed = 0; dirty = false }
