-- ===== src/Disk/Blocks.antt =====
-- The transfers of one block, Read and Write of btree_lab/disksystem.cc, against the contents of
-- the disk as a function from block numbers to bytes.
use native.Mathlib.Decide.{ℕ_discrete}
use mathlib.Core.Path.{fun_ext}
use native.Mathlib.Nat.{mul-le-mul_right}
use eecs.Prelude.{
  ℕ, ◌+◌, ◌*◌, ◌≤◌, ◌<◌, ◌≡◌, ◌⊎◌, refl, ap, sym, ◌∙◌, true, false, List, [], ◌∷◌, length, ltb,
  ◌==◌, if◌then◌else◌, arith,
}
use eecs.Prelude.Words.{size_mod, +W-eq, *W-eq, ◌+W◌, ◌*W◌}
use eecs.Prelude.Ranges.{blocks_apart}
use eecs.Error.{no_error}
use eecs.Double.{Double}
use eecs.Block.{Block, with_size}
use eecs.File.{Reading, content, window, overlay, mywrite, myread}
use eecs.File.Contents.{
  length-window, window_congr, window-overlay_self, window-overlay_apart, content-written, written,
  mywrite_lem, myread_lem, Reads,
}
use eecs.Disk.{
  Disk, Transfer, block_offset, model_access, read, write, read_rounds, write_rounds, read_block,
  write_block,
}

-- The blocks lie within the data file, and their offsets within a word.
pub record IsDisk {ℓ} {D : Type ℓ} (dk : Disk D) : Type 0 where
  pub positive : 0 < dk.blocksize
  pub numbered : dk.numblocks + 1 < size_mod
  pub word : dk.offset + dk.numblocks * dk.blocksize < size_mod
  pub fits : dk.offset + dk.numblocks * dk.blocksize ≤ dk.datafile.limit

pub record SameShape {ℓ} {D : Type ℓ} (dk dk' : Disk D) : Type 0 where
  pub offset : dk'.offset ≡ dk.offset
  pub numblocks : dk'.numblocks ≡ dk.numblocks
  pub blocksize : dk'.blocksize ≡ dk.blocksize
  pub limit : dk'.datafile.limit ≡ dk.datafile.limit

-- The bytes of block `k`.
unfoldable pub stored {ℓ} : {D : Type ℓ} → Disk D → ℕ → List ℕ
stored dk k = window (content dk.datafile) (dk.offset + k * dk.blocksize) dk.blocksize

module _ {ℓ} {D : Type ℓ} where
  pub SameShape-refl : (dk : Disk D) → SameShape dk dk
  SameShape-refl dk = record { offset = refl; numblocks = refl; blocksize = refl; limit = refl }

  pub SameShape-trans : {a b c : Disk D} → SameShape a b → SameShape b c → SameShape a c
  SameShape-trans p q = record {
    offset = q.offset ∙ p.offset;
    numblocks = q.numblocks ∙ p.numblocks;
    blocksize = q.blocksize ∙ p.blocksize;
    limit = q.limit ∙ p.limit;
  }

  pub SameShape-IsDisk : {dk dk' : Disk D} → SameShape dk dk' → IsDisk dk → IsDisk dk'
  SameShape-IsDisk s h = record {
    positive = ground arith;
    numbered = ground arith;
    word = ground arith;
    fits = ground arith;
  }

  pub stored_congr :
      {dk dk' : Disk D} (j : ℕ)
      → SameShape dk dk'
      → ((q : ℕ) → content dk'.datafile q ≡ content dk.datafile q)
      → stored dk' j ≡ stored dk j
  unfolding stored
  stored_congr {dk} j s same =
      rw (s.offset, s.blocksize)
        (window_congr _ _ (dk.offset + j * dk.blocksize) dk.blocksize (λ q p r. same q))

  pub stored-written :
      {dk dk' : Disk D} (k j : ℕ) (bytes : List ℕ)
      → length bytes ≡ dk.blocksize
      → SameShape dk dk'
      → dk'.datafile ≡ written dk.datafile (dk.offset + k * dk.blocksize) bytes
      → stored dk' j ≡ (if k == j then bytes else stored dk j)
  unfolding stored
  stored-written {dk} k j bytes size s file =
      let start = dk.offset + k * dk.blocksize in
      rw (s.offset, s.blocksize, file, fun_ext (content-written dk.datafile start bytes))
        (elim (ℕ_discrete k j) [
          | yes p ↦
              let self : window (overlay (content dk.datafile) start bytes) start dk.blocksize
                  ≡ bytes =
                rw size at (window-overlay_self (content dk.datafile) start bytes) in
              rw (← p) (ground (arith, self))
          | no p ↦
              let apart : (dk.offset + j * dk.blocksize + dk.blocksize ≤ start)
                  ⊎ (start + length bytes ≤ dk.offset + j * dk.blocksize) =
                rw size (blocks_apart dk.offset dk.blocksize j k (λ e. p (sym e))) in
              ground
                (arith, window-overlay_apart (content dk.datafile) _ dk.blocksize start bytes apart)
        ])

  pub length-stored : (dk : Disk D) (k : ℕ) → length (stored dk k) ≡ dk.blocksize
  unfolding stored
  length-stored dk k = length-window _ _ dk.blocksize

module _ {ℓ} {D : Type ℓ} ⦃d : Double D⦄ {dk : Disk D} (h : IsDisk dk) (k : ℕ)
    (inside : k < dk.numblocks) where
  pub block-end-le :
      dk.offset + k * dk.blocksize + dk.blocksize ≤ dk.offset + dk.numblocks * dk.blocksize
  block-end-le = omega (arith, mul-le-mul_right dk.blocksize inside)

  pub block_offset_lem : block_offset dk k ≡ dk.offset + k * dk.blocksize
  block_offset_lem =
      let product : k *W dk.blocksize ≡ k * dk.blocksize =
        *W-eq k dk.blocksize (omega (arith, block-end-le, h.word)) in
      rw product (+W-eq dk.offset (k * dk.blocksize) (omega (arith, block-end-le, h.word)))

  same_block : k +W 0 ≡ k
  same_block = +W-eq k 0 (omega (arith, h.numbered)) ∙ omega arith

  guard-false : ltb dk.numblocks (k +W 1) ≡ false
  guard-false = ground (arith, +W-eq k 1, h.numbered)

  -- What the read of the file inside `read_block` returns.
  abbrev pub reading : Reading
  reading = myread dk.datafile (dk.offset + k * dk.blocksize) dk.blocksize true

  pub reading-Reads : Reads dk.datafile (dk.offset + k * dk.blocksize) dk.blocksize reading
  reading-Reads =
      myread_lem dk.datafile (dk.offset + k * dk.blocksize) dk.blocksize
        (omega (arith, block-end-le, h.fits)) (omega (arith, block-end-le, h.word)) h.positive

  read_block_parts :
      ((read_block dk k).rc ≡ no_error)
      × ((read_block dk k).blocks ≡ record (with_size dk.blocksize) { bytes = reading.buf } ∷ [])
      × ((read_block dk k).disk.datafile ≡ reading.file)
      × SameShape dk (read_block dk k).disk
  unfolding read_block read read_rounds model_access
  read_block_parts =
      let full : (reading.count == dk.blocksize) ≡ true = ground (arith, reading-Reads.all) in
      rw (guard-false, same_block, block_offset_lem, full)
        (
          refl,
          refl,
          refl,
          record { offset = refl; numblocks = refl; blocksize = refl; limit = reading-Reads.limit },
        )

  -- What the write to the file inside `write_block` returns.
  write_block_parts :
      (b : Block D)
      → length b.bytes ≡ dk.blocksize
      → ((write_block dk k b).rc ≡ no_error)
        × ((write_block dk k b).disk.datafile
            ≡ written dk.datafile (dk.offset + k * dk.blocksize) b.bytes)
        × SameShape dk (write_block dk k b).disk
  unfolding write_block write write_rounds model_access
  write_block_parts b size =
      let start = dk.offset + k * dk.blocksize in
      let wrote : mywrite dk.datafile start b.bytes dk.blocksize
          ≡ (written dk.datafile start b.bytes, dk.blocksize) =
        ground (
          arith,
          mywrite_lem dk.datafile start b.bytes dk.blocksize size
              (omega (arith, block-end-le, h.fits)),
          h.positive,
        ) in
      let full : (dk.blocksize == dk.blocksize) ≡ true = ground arith in
      rw (guard-false, same_block, block_offset_lem, wrote, full)
        (refl, refl, record { offset = refl; numblocks = refl; blocksize = refl; limit = refl })

module _ {ℓ} {D : Type ℓ} ⦃d : Double D⦄ where
  pub record ReadsBlock (dk : Disk D) (k : ℕ) (t : Transfer D) : Type ℓ where
    pub rc : t.rc ≡ no_error
    pub block : t.blocks ≡ record (with_size dk.blocksize) { bytes = stored dk k } ∷ []
    pub shape : SameShape dk t.disk
    pub same : (j : ℕ) → stored t.disk j ≡ stored dk j

  pub record WritesBlock (dk : Disk D) (k : ℕ) (bytes : List ℕ) (t : Transfer D) : Type ℓ where
    pub rc : t.rc ≡ no_error
    pub shape : SameShape dk t.disk
    pub after : (j : ℕ) → stored t.disk j ≡ (if k == j then bytes else stored dk j)

  -- On a disk whose blocks lie within its data file, Read of a block of the disk succeeds, returns
  -- one block with its bytes, and changes the bytes of no block.
  pub read_block-ReadsBlock :
      {dk : Disk D} → IsDisk dk → (k : ℕ) → k < dk.numblocks → ReadsBlock dk k (read_block dk k)
  read_block-ReadsBlock {dk} h k inside =
      let (rc, blocks, file, shape) = read_block_parts h k inside in
      let r = reading-Reads h k inside in
      record {
        rc = rc;
        block =
            blocks
            ∙ ap (λ bs. record (with_size dk.blocksize) { bytes = bs } ∷ [])
                (unfold stored in r.buf);
        shape = shape;
        same = λ j. stored_congr j shape (rw file r.same);
      }

  -- On a disk whose blocks lie within its data file, Write of a block's worth of bytes to a block
  -- of the disk succeeds and changes the bytes of that block alone.
  pub write_block-WritesBlock :
      {dk : Disk D}
      → IsDisk dk
      → (k : ℕ) (b : Block D) → k < dk.numblocks
      → length b.bytes ≡ dk.blocksize
      → WritesBlock dk k b.bytes (write_block dk k b)
  write_block-WritesBlock {dk} h k b inside size =
      let (rc, file, shape) = write_block_parts h k inside b size in
      record { rc = rc; shape = shape; after = λ j. stored-written k j b.bytes size shape file }
