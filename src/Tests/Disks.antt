-- ===== src/Tests/Disks.antt =====
-- Tests of btree_lab/disksystem.cc and witnesses of the theorems on it.
use eecs.Prelude.{
  ℕ, zero, suc, ◌%◌, ◌+◌, ◌-◌, ◌*◌, ◌≤◌, ◌<◌, ◌≡◌, ◌≢◌, refl, Bool, true, false, List, [], ◌∷◌,
  get_or, ltb, leb, ◌&&◌, if◌then◌else◌, arith,
}
use eecs.Prelude.Words.{size_mod}
use eecs.Error.{no_error}
use eecs.Block.{Block}
use eecs.Bitmap.Laws.{IsBitmap}
use eecs.Disk.{
  Disk, Transfer, track_blocks, sanity_check_config, sectorhop, model_access, read_block,
  write_block, is_block_allocated, notify_allocate_blocks, notify_deallocate_blocks, write_bitmap,
  read_bitmap, numbitmapbytes,
}
use eecs.Disk.Geometry.{sectorhop_turn, model_access_head}
use eecs.Disk.Alloc.{notify_blocks_lem}
use eecs.Tests.{small_disk, two_bytes, whole_times}

-- The head over sector 1.
abbrev turned : Disk ℕ
turned = record small_disk { last_sector = 1 }

hop_back : sectorhop turned 0 ≡ 1
unfolding sectorhop eecs.Prelude.Words.◌-W◌
hop_back = refl

-- A written block reads back.
read_after_write :
    (read_block (write_block small_disk 3 (two_bytes 7 8)).disk 3).blocks ≡ (two_bytes 7 8 ∷ [])
unfolding read_block write_block eecs.Disk.read eecs.Disk.write eecs.Prelude.Words.◌+W◌
    eecs.Disk.write_rounds eecs.File.mywrite model_access eecs.Prelude.Words.◌*W◌
    eecs.Disk.read_rounds eecs.File.myread eecs.File.read_once eecs.File.window eecs.Block.with_size
    whole_times
read_after_write = refl

abbrev cleared : List ℕ
cleared = 0 ∷ []

cleared-IsBitmap : IsBitmap 4 cleared
cleared-IsBitmap = record { covers = omega arith; byte = zero_byte }
  where
    zero_byte : (i : ℕ) → get_or (0 ∷ []) i 0 < 256
    zero_byte zero = omega arith
    zero_byte (suc i) = omega arith

notify_blocks_lem_example :
    ((notify_allocate_blocks small_disk 1 2).1 ≡ no_error)
    × ((notify_deallocate_blocks small_disk 1 2).1 ≡ no_error)
    × (is_block_allocated (notify_allocate_blocks small_disk 1 2).0 2 ≡ true)
    × (is_block_allocated (notify_deallocate_blocks small_disk 1 2).0 2 ≡ false)
notify_blocks_lem_example =
    notify_blocks_lem small_disk 1 2 2 cleared-IsBitmap (omega arith) (omega arith)

small_disk-sane : sanity_check_config small_disk ≡ no_error
unfolding sanity_check_config whole_times eecs.Prelude.Words.◌*W◌
small_disk-sane = refl

sectorhop_turn_example : (sectorhop turned 0 < 2) × ((1 + sectorhop turned 0) % 2 ≡ 0)
sectorhop_turn_example = sectorhop_turn turned 0 (omega arith) (omega arith) (omega arith)

model_access_head_example :
    ((model_access small_disk 1 2).0.last_track * track_blocks small_disk
        + (model_access small_disk 1 2).0.last_sector
        + 1
      ≡ 3)
    × ((model_access small_disk 1 2).0.last_sector < track_blocks small_disk)
model_access_head_example =
    model_access_head small_disk 1 2 (omega arith) (omega arith) small_disk-sane (omega arith)
