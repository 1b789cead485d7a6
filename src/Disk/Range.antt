-- ===== src/Disk/Range.antt =====
-- Requests outside the disk. The guards of Read and Write of btree_lab/disksystem.cc and of the
-- notifications compare a 32-bit sum with the number of blocks.
use eecs.Prelude.{ℕ, ◌+◌, ◌*◌, ◌≤◌, ◌<◌, ◌≡◌, ◌⊎◌, List, [], length}
use eecs.Error.{Error, no_error, nospace, nosuchblock, implbug}
use eecs.Double.{Double}
use eecs.Block.{Block}
use eecs.Disk.{
  Disk, Transfer, read, write, notify_allocate_blocks, notify_deallocate_blocks, track_blocks,
}

-- What a transfer on the disk ends with: success, or the device's failure.
abbrev pub Attempted : Error → Type 0
Attempted rc = (rc ≡ no_error) ⊎ (rc ≡ implbug)

module _ {ℓ} {D : Type ℓ} ⦃d : Double D⦄ where
  -- The request is refused, takes no time and changes nothing.
  abbrev pub refused : Disk D → Transfer D
  refused dk = record { disk = dk; blocks = []; reqtime = d.of_size 0; rc = nospace }

  -- How the guards decide on a request for `n` blocks from block `off`: the bits that an accepted one
  -- looks at are in the bitmap, and ModelAccess does not divide by zero.
  abbrev pub Guarded : Disk D → ℕ → ℕ → List (Block D) → Type ℓ
  Guarded dk off n bs =
      ((off + n ≤ dk.numblocks)
        × (off + n ≤ 8 * length dk.bitmap)
        × (0 < track_blocks dk)
        × Attempted (read dk off n).rc
        × Attempted (write dk off n bs).rc
        × ((notify_allocate_blocks dk off n).1 ≡ no_error)
        × ((notify_deallocate_blocks dk off n).1 ≡ no_error))
      ⊎ ((dk.numblocks < off + n)
          × (read dk off n ≡ refused dk)
          × (write dk off n bs ≡ refused dk)
          × (notify_allocate_blocks dk off n ≡ (dk, nosuchblock))
          × (notify_deallocate_blocks dk off n ≡ (dk, nosuchblock)))
