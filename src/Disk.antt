-- ===== src/Disk.antt =====
-- class DiskSystem of btree_lab/disksystem.h and btree_lab/disksystem.cc: the disk's state, its
-- model of the time that a request takes, the transfers of blocks and the notifications of the
-- allocator. The configuration file is its text; the data and bitmap files have a size limit. The
-- tests of the allocation bitmap inside a transfer only guard messages that global.h turns off, so
-- their results are not used. Every block of a request that the guard lets through is on the disk,
-- but where the 32-bit sum of the guard wraps: the source then reads outside the bitmap, which is
-- undefined.
pub mod Geometry
pub mod Blocks
pub mod Range
pub mod Runs
pub mod Same
pub mod Print
pub mod Transfers
pub mod Alloc
pub mod Config
pub mod Init
use eecs.Prelude.{
  ℕ, zero, suc, ◌+◌, ◌-◌, ◌/◌, ◌%◌, Bool, true, false, ◌||◌, not, List, [], ◌∷◌, ltb, leb, ◌==◌,
  if◌then◌else◌,
}
use eecs.Prelude.Words.{◌+W◌, ◌-W◌, ◌*W◌}
use eecs.Error.{Error, no_error, nospace, nosuchblock, implbug, badconfig}
use eecs.Double.{Double}
use eecs.Block.{Block, with_size}
use eecs.File.{File, Reading, mywrite, myread}
use eecs.Bitmap.{get_bit, set_bits, clear_bits}

pub record Disk {ℓ} (D : Type ℓ) : Type ℓ where
  pub bitmap : List ℕ
  pub datafile : File
  pub bitmapfile : File
  pub configfile : List ℕ
  pub diskfilestem : List ℕ
  pub offset : ℕ
  pub numblocks : ℕ
  pub blocksize : ℕ
  pub numheads : ℕ
  pub blockspertrack : ℕ
  pub numtracks : ℕ
  pub last_track : ℕ
  pub last_sector : ℕ
  pub averageseeklatency : D
  pub trackseeklatency : D
  pub rotationallatency : D

-- What a transfer returns: the disk, the blocks read, `reqtime` and the error code.
pub record Transfer {ℓ} (D : Type ℓ) : Type ℓ where
  pub disk : Disk D
  pub blocks : List (Block D)
  pub reqtime : D
  pub rc : Error

-- numheads*blockspertrack: the blocks of one track, over all heads
abbrev pub track_blocks {ℓ} : {D : Type ℓ} → Disk D → ℕ
track_blocks dk = dk.numheads *W dk.blockspertrack

-- The sectors that pass under the head before the first one of the request.
unfoldable pub sectorhop {ℓ} : {D : Type ℓ} → Disk D → ℕ → ℕ
sectorhop dk req_sectorstart =
    if leb dk.last_sector req_sectorstart
    then req_sectorstart -W dk.last_sector
    else dk.blockspertrack -W (dk.last_sector -W req_sectorstart)

-- A block outside the bitmap, where the source reads other memory, is not allocated here.
unfoldable pub is_block_allocated {ℓ} : {D : Type ℓ} → Disk D → ℕ → Bool
is_block_allocated dk block = get_bit dk.bitmap block

module _ {ℓ} {D : Type ℓ} ⦃d : Double D⦄ where
  abbrev not_positive : D → Bool
  not_positive x = d.le x (d.of_size 0)

  unfoldable pub sanity_check_config : Disk D → Error
  sanity_check_config dk =
      if not_positive dk.averageseeklatency
        || not_positive dk.trackseeklatency
        || not_positive dk.rotationallatency
      then badconfig
      else if not (dk.numblocks == dk.numheads *W dk.blockspertrack *W dk.numtracks)
      then badconfig
      else no_error

  -- timeinseek of ModelAccess: the shorter of a seek track by track and a long seek
  unfoldable pub seek_time : Disk D → ℕ → D
  seek_time dk req_trackstart =
      let trackhop =
        d.to_size (d.abs (d.sub (d.of_size req_trackstart) (d.of_size dk.last_track))) in
      let trackhopfrac = d.div (d.of_size trackhop) (d.of_size dk.numtracks) in
      let trackbytracktime = d.mul (d.of_size trackhop) dk.trackseeklatency in
      let longseektime = d.mul (d.div trackhopfrac d.half) dk.averageseeklatency in
      if d.lt trackbytracktime longseektime then trackbytracktime else longseektime

  -- Where numheads*blockspertrack is 0 the source divides by zero, which is undefined, and this
  -- takes 0 for the quotient. No disk that SanityCheckConfig passes and that has a block is so.
  unfoldable pub model_access : Disk D → ℕ → ℕ → Disk D × D
  model_access dk offblock numblock =
      let req_trackstart = offblock / track_blocks dk in
      let req_sectorstart = offblock % track_blocks dk in
      let req_trackend = (offblock +W numblock -W 1) / track_blocks dk in
      let req_sectorend = (offblock +W numblock -W 1) % track_blocks dk in
      let timeinseek = seek_time dk req_trackstart in
      let sectorhopfrac =
        d.div (d.of_size (sectorhop dk req_sectorstart)) (d.of_size dk.blockspertrack) in
      let timeinrotation = d.mul dk.rotationallatency sectorhopfrac in
      let numtrackbytrackhops = req_trackend -W req_trackstart in
      let timeintrackbytrackhops = d.mul (d.of_size numtrackbytrackhops) dk.trackseeklatency in
      let timeinreadsectors =
        d.mul dk.rotationallatency (d.div (d.of_size numblock) (d.of_size dk.blockspertrack)) in
      (
        record dk { last_track = req_trackend; last_sector = req_sectorend },
        d.add (d.add (d.add timeinseek timeinrotation) timeintrackbytrackhops) timeinreadsectors,
      )

  -- Where block `block` lies in the data file.
  abbrev pub block_offset : Disk D → ℕ → ℕ
  block_offset dk block = dk.offset +W block *W dk.blocksize

  -- The loop of `Read`, from round `i`, with the rounds that are left.
  unfoldable pub read_rounds : ℕ → ℕ → ℕ → Disk D → Disk D × List (Block D) × Error
  read_rounds zero i inoffblock dk = (dk, [], no_error)
  read_rounds (suc n) i inoffblock dk =
      let allocated = is_block_allocated dk (inoffblock +W i) in
      let r = myread dk.datafile (block_offset dk (inoffblock +W i)) dk.blocksize true in
      let dk' = record dk { datafile = r.file } in
      let b = record (with_size dk.blocksize) { bytes = r.buf } in
      let rest = read_rounds n (i + 1) inoffblock dk' in
      if r.count == dk.blocksize then (rest.0, b ∷ rest.1, rest.2) else (dk', [], implbug)

  -- The loop of `Write`. `blocks[i]` past the end of the vector is undefined; it ends the loop here.
  unfoldable pub write_rounds : ℕ → ℕ → ℕ → List (Block D) → Disk D → Disk D × Error
  write_rounds zero i inoffblock blocks dk = (dk, no_error)
  write_rounds (suc n) i inoffblock [] dk = (dk, no_error)
  write_rounds (suc n) i inoffblock (b ∷ blocks) dk =
      let allocated = is_block_allocated dk (inoffblock +W i) in
      let (f, count) =
        mywrite dk.datafile (block_offset dk (inoffblock +W i)) b.bytes dk.blocksize in
      let dk' = record dk { datafile = f } in
      let rest = write_rounds n (i + 1) inoffblock blocks dk' in
      if count == dk.blocksize then rest else (dk', implbug)

  unfoldable pub read : Disk D → ℕ → ℕ → Transfer D
  read dk inoffblock numblock =
      if ltb dk.numblocks (inoffblock +W numblock)
      then record { disk = dk; blocks = []; reqtime = d.of_size 0; rc = nospace }
      else let (dk', reqtime) = model_access dk inoffblock numblock in
        let (dk'', blocks, rc) = read_rounds numblock 0 inoffblock dk' in
        record { disk = dk''; blocks = blocks; reqtime = reqtime; rc = rc }

  unfoldable pub write : Disk D → ℕ → ℕ → List (Block D) → Transfer D
  write dk inoffblock numblock blocks =
      if ltb dk.numblocks (inoffblock +W numblock)
      then record { disk = dk; blocks = []; reqtime = d.of_size 0; rc = nospace }
      else let (dk', reqtime) = model_access dk inoffblock numblock in
        let (dk'', rc) = write_rounds numblock 0 inoffblock blocks dk' in
        record { disk = dk''; blocks = []; reqtime = reqtime; rc = rc }

  -- The overload for one block reads `bl[0]`, where the transfer succeeds.
  unfoldable pub read_block : Disk D → ℕ → Transfer D
  read_block dk inoffblock = read dk inoffblock 1

  unfoldable pub write_block : Disk D → ℕ → Block D → Transfer D
  write_block dk inoffblock b = write dk inoffblock 1 (b ∷ [])

module _ {ℓ} {D : Type ℓ} where
  unfoldable pub notify_allocate_blocks : Disk D → ℕ → ℕ → Disk D × Error
  notify_allocate_blocks dk offset innumblocks =
      let end = offset +W innumblocks in
      if ltb dk.numblocks end
      then (dk, nosuchblock)
      else (record dk { bitmap = set_bits (end - offset) offset dk.bitmap }, no_error)

  unfoldable pub notify_deallocate_blocks : Disk D → ℕ → ℕ → Disk D × Error
  notify_deallocate_blocks dk offset innumblocks =
      let end = offset +W innumblocks in
      if ltb dk.numblocks end
      then (dk, nosuchblock)
      else (record dk { bitmap = clear_bits (end - offset) offset dk.bitmap }, no_error)

  -- numblocks / 8 + (numblocks%8 != 0)
  abbrev pub numbitmapbytes : Disk D → ℕ
  numbitmapbytes dk = dk.numblocks / 8 + (if dk.numblocks % 8 == 0 then 0 else 1)

  unfoldable pub write_bitmap : Disk D → Disk D × Error
  write_bitmap dk =
      let (f, count) = mywrite dk.bitmapfile 0 dk.bitmap (numbitmapbytes dk) in
      (record dk { bitmapfile = f }, if count == numbitmapbytes dk then no_error else implbug)

  unfoldable pub read_bitmap : Disk D → Disk D × Error
  read_bitmap dk =
      let r = myread dk.bitmapfile 0 (numbitmapbytes dk) false in
      (
        record dk { bitmapfile = r.file; bitmap = r.buf },
        if r.count == numbitmapbytes dk then no_error else implbug,
      )
