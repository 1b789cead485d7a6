-- ===== src/Disk/Same.antt =====
-- What no operation on a disk of btree_lab/disksystem.cc changes: its parameters, its bitmap file and
-- the size of its bitmap.
use eecs.Prelude.{
  ℕ, zero, suc, ◌+◌, ◌≡◌, ◌∙◌, refl, true, inl, inr, Bool-cases, List, [], ◌∷◌, length, length-set,
  ltb, ◌==◌,
}
use eecs.Prelude.Words.{◌+W◌}
use eecs.Double.{Double}
use eecs.Block.{Block}
use eecs.File.{File, myread, mywrite}
use eecs.Bitmap.{set_bit, clear_bit, set_bits, clear_bits}
use eecs.Disk.{
  Disk, block_offset, model_access, read_rounds, write_rounds, read, write, read_block, write_block,
  notify_allocate_blocks, notify_deallocate_blocks,
}

pub record Same {ℓ} {D : Type ℓ} (dk dk' : Disk D) : Type ℓ where
  pub diskfilestem : dk'.diskfilestem ≡ dk.diskfilestem
  pub offset : dk'.offset ≡ dk.offset
  pub numblocks : dk'.numblocks ≡ dk.numblocks
  pub blocksize : dk'.blocksize ≡ dk.blocksize
  pub numheads : dk'.numheads ≡ dk.numheads
  pub blockspertrack : dk'.blockspertrack ≡ dk.blockspertrack
  pub numtracks : dk'.numtracks ≡ dk.numtracks
  pub averageseeklatency : dk'.averageseeklatency ≡ dk.averageseeklatency
  pub trackseeklatency : dk'.trackseeklatency ≡ dk.trackseeklatency
  pub rotationallatency : dk'.rotationallatency ≡ dk.rotationallatency
  pub bitmapfile : dk'.bitmapfile ≡ dk.bitmapfile
  pub bits : length dk'.bitmap ≡ length dk.bitmap

length-set_bits : (n x : ℕ) (bits : List ℕ) → length (set_bits n x bits) ≡ length bits
unfolding set_bits set_bit
length-set_bits zero x bits = refl
length-set_bits (suc n) x bits = length-set_bits n (x + 1) (set_bit bits x) ∙ length-set bits _ _

length-clear_bits : (n x : ℕ) (bits : List ℕ) → length (clear_bits n x bits) ≡ length bits
unfolding clear_bits clear_bit
length-clear_bits zero x bits = refl
length-clear_bits (suc n) x bits =
    length-clear_bits n (x + 1) (clear_bit bits x) ∙ length-set bits _ _

module _ {ℓ} {D : Type ℓ} where
  -- A disk with another data file, place of the head, and bitmap of the same size.
  pub Same-moved :
      (dk : Disk D) (f : File) (t s : ℕ) (bits : List ℕ)
      → length bits ≡ length dk.bitmap
      → Same dk (record dk { datafile = f; last_track = t; last_sector = s; bitmap = bits })
  Same-moved dk f t s bits e = record {
    diskfilestem = refl;
    offset = refl;
    numblocks = refl;
    blocksize = refl;
    numheads = refl;
    blockspertrack = refl;
    numtracks = refl;
    averageseeklatency = refl;
    trackseeklatency = refl;
    rotationallatency = refl;
    bitmapfile = refl;
    bits = e;
  }

  pub Same-refl : (dk : Disk D) → Same dk dk
  Same-refl dk = Same-moved dk dk.datafile dk.last_track dk.last_sector dk.bitmap refl

  pub Same-trans : {a b c : Disk D} → Same a b → Same b c → Same a c
  Same-trans p q = record {
    diskfilestem = q.diskfilestem ∙ p.diskfilestem;
    offset = q.offset ∙ p.offset;
    numblocks = q.numblocks ∙ p.numblocks;
    blocksize = q.blocksize ∙ p.blocksize;
    numheads = q.numheads ∙ p.numheads;
    blockspertrack = q.blockspertrack ∙ p.blockspertrack;
    numtracks = q.numtracks ∙ p.numtracks;
    averageseeklatency = q.averageseeklatency ∙ p.averageseeklatency;
    trackseeklatency = q.trackseeklatency ∙ p.trackseeklatency;
    rotationallatency = q.rotationallatency ∙ p.rotationallatency;
    bitmapfile = q.bitmapfile ∙ p.bitmapfile;
    bits = q.bits ∙ p.bits;
  }

module _ {ℓ} {D : Type ℓ} ⦃d : Double D⦄ where
  read_rounds-Same : (n i k : ℕ) (dk : Disk D) → Same dk (read_rounds n i k dk).0
  unfolding read_rounds
  read_rounds-Same zero i k dk = Same-refl dk
  read_rounds-Same (suc n) i k dk =
      let r = myread dk.datafile (block_offset dk (k +W i)) dk.blocksize true in
      let dk' = record dk { datafile = r.file } in
      let first = Same-moved dk r.file dk.last_track dk.last_sector dk.bitmap refl in
      elim (Bool-cases (r.count == dk.blocksize)) [
        | inl full ↦ rw full (Same-trans first (read_rounds-Same n (i + 1) k dk'))
        | inr short ↦ rw short first
      ]

  write_rounds-Same :
      (n i k : ℕ) (bs : List (Block D)) (dk : Disk D) → Same dk (write_rounds n i k bs dk).0
  unfolding write_rounds
  write_rounds-Same zero i k bs dk = Same-refl dk
  write_rounds-Same (suc n) i k [] dk = Same-refl dk
  write_rounds-Same (suc n) i k (b ∷ bs) dk =
      let r = mywrite dk.datafile (block_offset dk (k +W i)) b.bytes dk.blocksize in
      let dk' = record dk { datafile = r.0 } in
      let first = Same-moved dk r.0 dk.last_track dk.last_sector dk.bitmap refl in
      elim (Bool-cases (r.1 == dk.blocksize)) [
        | inl full ↦ rw full (Same-trans first (write_rounds-Same n (i + 1) k bs dk'))
        | inr short ↦ rw short first
      ]

  pub read-Same : (dk : Disk D) (k n : ℕ) → Same dk (read dk k n).disk
  unfolding read model_access
  read-Same dk k n = elim (Bool-cases (ltb dk.numblocks (k +W n))) [
    | inl outside ↦ rw outside (Same-refl dk)
    | inr inside ↦
        rw inside
          (Same-trans (Same-moved dk dk.datafile _ _ dk.bitmap refl) (read_rounds-Same n 0 k _))
  ]

  pub write-Same : (dk : Disk D) (k n : ℕ) (bs : List (Block D)) → Same dk (write dk k n bs).disk
  unfolding write model_access
  write-Same dk k n bs = elim (Bool-cases (ltb dk.numblocks (k +W n))) [
    | inl outside ↦ rw outside (Same-refl dk)
    | inr inside ↦
        rw inside
          (Same-trans (Same-moved dk dk.datafile _ _ dk.bitmap refl) (write_rounds-Same n 0 k bs _))
  ]

  pub read_block-Same : (dk : Disk D) (k : ℕ) → Same dk (read_block dk k).disk
  unfolding read_block
  read_block-Same dk k = read-Same dk k 1

  pub write_block-Same : (dk : Disk D) (k : ℕ) (b : Block D) → Same dk (write_block dk k b).disk
  unfolding write_block
  write_block-Same dk k b = write-Same dk k 1 (b ∷ [])

module _ {ℓ} {D : Type ℓ} where
  pub notify_allocate_blocks-Same :
      (dk : Disk D) (k n : ℕ) → Same dk (notify_allocate_blocks dk k n).0
  unfolding notify_allocate_blocks
  notify_allocate_blocks-Same dk k n = elim (Bool-cases (ltb dk.numblocks (k +W n))) [
    | inl outside ↦ rw outside (Same-refl dk)
    | inr inside ↦
        rw inside
          (Same-moved dk dk.datafile dk.last_track dk.last_sector _ (length-set_bits _ k dk.bitmap))
  ]

  pub notify_deallocate_blocks-Same :
      (dk : Disk D) (k n : ℕ) → Same dk (notify_deallocate_blocks dk k n).0
  unfolding notify_deallocate_blocks
  notify_deallocate_blocks-Same dk k n = elim (Bool-cases (ltb dk.numblocks (k +W n))) [
    | inl outside ↦ rw outside (Same-refl dk)
    | inr inside ↦
        rw inside (
          Same-moved dk dk.datafile dk.last_track dk.last_sector _
            (length-clear_bits _ k dk.bitmap))
  ]
