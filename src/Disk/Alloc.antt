-- ===== src/Disk/Alloc.antt =====
-- The notifications of the allocator and the bitmap file of btree_lab/disksystem.cc.
use eecs.Prelude.{
  ℕ, ◌+◌, ◌-◌, ◌≤◌, ◌<◌, ◌≡◌, refl, true, false, ◌&&◌, length, ltb, leb, ◌==◌, if◌then◌else◌, arith,
}
use eecs.Prelude.Words.{size_mod, +W-eq}
use eecs.Error.{no_error}
use eecs.Bitmap.Laws.{IsBitmap, get_bit-set_bits, get_bit-clear_bits}
use eecs.File.{mywrite, myread}
use eecs.File.Contents.{written, mywrite_lem, myread-written}
use eecs.Disk.{
  Disk, is_block_allocated, notify_allocate_blocks, notify_deallocate_blocks, write_bitmap,
  read_bitmap, numbitmapbytes,
}

module _ {ℓ} {D : Type ℓ} (dk : Disk D) where
  -- With a bitmap for the blocks of the disk, whose number is a word, a notification for a range of
  -- them succeeds and changes the allocation of that range alone.
  pub notify_blocks_lem :
      (offset n y : ℕ)
      → IsBitmap dk.numblocks dk.bitmap
      → offset + n ≤ dk.numblocks
      → dk.numblocks < size_mod
      → ((notify_allocate_blocks dk offset n).1 ≡ no_error)
        × ((notify_deallocate_blocks dk offset n).1 ≡ no_error)
        × (is_block_allocated (notify_allocate_blocks dk offset n).0 y
            ≡ (if leb offset y && ltb y (offset + n) then true else is_block_allocated dk y))
        × (is_block_allocated (notify_deallocate_blocks dk offset n).0 y
            ≡ (if leb offset y && ltb y (offset + n) then false else is_block_allocated dk y))
  unfolding notify_allocate_blocks notify_deallocate_blocks is_block_allocated
  notify_blocks_lem offset n y m inside word =
      let guard : ltb dk.numblocks (offset + n) ≡ false = ground arith in
      let rounds : offset + n - offset ≡ n = omega arith in
      rw (+W-eq offset n (omega arith), guard, rounds)
        (
          refl,
          refl,
          (get_bit-set_bits n offset y m inside).1,
          (get_bit-clear_bits n offset y m inside).1,
        )

  -- What `WriteBitMap` has written, `ReadBitMap` reads back, if the bitmap has exactly the bytes
  -- for its blocks and the device room for them.
  pub read_bitmap-write_bitmap :
      length dk.bitmap ≡ numbitmapbytes dk
      → numbitmapbytes dk ≤ dk.bitmapfile.limit
      → 0 < dk.numblocks
      → ((write_bitmap dk).1 ≡ no_error)
        × ((read_bitmap (write_bitmap dk).0).1 ≡ no_error)
        × ((read_bitmap (write_bitmap dk).0).0.bitmap ≡ dk.bitmap)
  unfolding write_bitmap read_bitmap
  read_bitmap-write_bitmap size room some_block =
      let n = numbitmapbytes dk in
      let wrote : mywrite dk.bitmapfile 0 dk.bitmap n ≡ (written dk.bitmapfile 0 dk.bitmap, n) =
        ground (arith, mywrite_lem dk.bitmapfile 0 dk.bitmap n size (omega arith)) in
      let got : myread (written dk.bitmapfile 0 dk.bitmap) 0 n false
          ≡ record { file = written dk.bitmapfile 0 dk.bitmap; buf = dk.bitmap; count = n } =
        myread-written dk.bitmapfile 0 dk.bitmap n false size in
      let same : (n == n) ≡ true = ground arith in rw (wrote, same, got, same) (refl, refl, refl)
