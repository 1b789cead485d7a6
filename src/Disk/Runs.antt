-- ===== src/Disk/Runs.antt =====
-- Read and Write of btree_lab/disksystem.cc over a run of blocks, against the contents of the disk.
use native.Mathlib.Nat.{add_assoc}
use eecs.Prelude.{
  ℕ, zero, suc, ◌+◌, ◌*◌, ◌≤◌, ◌<◌, ◌≡◌, refl, ap, ◌∙◌, true, List, [], ◌∷◌, length, ◌==◌,
  if◌then◌else◌, arith,
}
use eecs.Prelude.Words.{+W-eq}
use eecs.Error.{no_error}
use eecs.Double.{Double}
use eecs.Block.{Block, with_size}
use eecs.File.{mywrite}
use eecs.File.Contents.{written, mywrite_lem}
use eecs.Disk.{Disk, read_rounds, write_rounds}
use eecs.Disk.Blocks.{
  IsDisk, SameShape, SameShape-IsDisk, SameShape-refl, SameShape-trans, stored, stored_congr,
  stored-written, block-end-le, block_offset_lem, reading, reading-Reads,
}

module _ {ℓ} {D : Type ℓ} ⦃d : Double D⦄ where
  -- The blocks of the disk from `k` on, as Read returns them.
  abbrev pub blocks_from : Disk D → ℕ → ℕ → List (Block D)
  blocks_from dk k zero = []
  blocks_from dk k (suc n) =
      record (with_size dk.blocksize) { bytes = stored dk k } ∷ blocks_from dk (k + 1) n

  -- The bytes of block `j`, `old` before, once the blocks `bs` have been written from `k` on.
  abbrev pub run_at : List (Block D) → ℕ → ℕ → List ℕ → List ℕ
  run_at [] k j old = old
  run_at (b ∷ bs) k j old = if k == j then b.bytes else run_at bs (k + 1) j old

  abbrev pub AllSized : ℕ → List (Block D) → Type 0
  AllSized size [] = Unit {0}
  AllSized size (b ∷ bs) = (length b.bytes ≡ size) × AllSized size bs

  pub run_at-before :
      (bs : List (Block D)) (k j : ℕ) (old : List ℕ) → j < k → run_at bs k j old ≡ old
  run_at-before [] k j old h = refl
  run_at-before (b ∷ bs) k j old h = ground (arith, run_at-before bs (k + 1) j old)

  pub blocks_from_congr :
      (n k : ℕ) (dk dk' : Disk D)
      → dk'.blocksize ≡ dk.blocksize
      → ((j : ℕ) → stored dk' j ≡ stored dk j)
      → blocks_from dk' k n ≡ blocks_from dk k n
  blocks_from_congr zero k dk dk' size same = refl
  blocks_from_congr (suc n) k dk dk' size same =
      let rest = blocks_from_congr n (k + 1) dk dk' size same in simp (size, same k, rest)

  pub record ReadsRun (dk : Disk D) (k n : ℕ) (dk' : Disk D) (blocks : List (Block D))
      : Type ℓ where
    pub run : blocks ≡ blocks_from dk k n
    pub shape : SameShape dk dk'
    pub same : (j : ℕ) → stored dk' j ≡ stored dk j
    pub kept : dk' ≡ record dk { datafile = dk'.datafile }

  -- The first round, where the block is one of the disk's.
  read_rounds-suc :
      (n i k : ℕ) {dk : Disk D} (h : IsDisk dk) (inside : k + i < dk.numblocks)
      → let got = reading h (k + i) inside in
        let rest = read_rounds n (i + 1) k (record dk { datafile = got.file }) in
        read_rounds (suc n) i k dk
        ≡ (rest.0, record (with_size dk.blocksize) { bytes = got.buf } ∷ rest.1, rest.2)
  unfolding read_rounds
  read_rounds-suc n i k {dk} h inside =
      let full : ((reading h (k + i) inside).count == dk.blocksize) ≡ true =
        ground (arith, (reading-Reads h (k + i) inside).all) in
      rw (+W-eq k i (omega (arith, h.numbered)), block_offset_lem h (k + i) inside, full) refl

  pub read_rounds-ReadsRun :
      (n i k : ℕ) {dk : Disk D}
      → IsDisk dk
      → k + i + n ≤ dk.numblocks
      → (dk' : Disk D) × (blocks : List (Block D)) × (read_rounds n i k dk
          ≡ (dk', blocks, no_error))
        × ReadsRun dk (k + i) n dk' blocks
  unfolding stored
  read_rounds-ReadsRun zero i k {dk} h inside = (
    dk,
    [],
    unfold read_rounds in refl,
    record { run = refl; shape = SameShape-refl dk; same = λ j. refl; kept = refl },
  )
  read_rounds-ReadsRun (suc n) i k {dk} h inside =
      let within : k + i < dk.numblocks = omega arith in
      let r = reading-Reads h (k + i) within in
      let got = reading h (k + i) within in
      let dk' = record dk { datafile = got.file } in
      let shape : SameShape dk dk' = record {
        offset = refl;
        numblocks = refl;
        blocksize = refl;
        limit = r.limit;
      } in
      let same = λ (j : ℕ). stored_congr {dk = dk} {dk' = dk'} j shape r.same in
      let (dk'', blocks, e, w) =
        read_rounds-ReadsRun n (i + 1) k {dk = dk'} (SameShape-IsDisk shape h) (omega arith) in
      let next : k + (i + 1) ≡ k + i + 1 = omega arith in
      let run : blocks ≡ blocks_from dk (k + i + 1) n =
        w.run
        ∙ blocks_from_congr n (k + (i + 1)) dk dk' refl same
        ∙ ap (λ j. blocks_from dk j n) next in
      (
        dk'',
        _,
        read_rounds-suc n i k h within ∙ rw e refl,
        record {
          run =
              ap (λ bs. record (with_size dk.blocksize) { bytes = got.buf } ∷ bs) run
              ∙ ap
                  (λ bs.
                    record (with_size dk.blocksize) { bytes = bs } ∷ blocks_from dk (k + i + 1) n)
                  r.buf;
          shape = SameShape-trans shape w.shape;
          same = λ j. w.same j ∙ same j;
          kept = w.kept;
        },
      )

  -- What a successful write of the blocks `bs` from `k` on does.
  pub record WritesRun (dk : Disk D) (k : ℕ) (bs : List (Block D)) (dk' : Disk D) : Type ℓ where
    pub shape : SameShape dk dk'
    pub after : (j : ℕ) → stored dk' j ≡ run_at bs k j (stored dk j)
    pub kept : dk' ≡ record dk { datafile = dk'.datafile }

  write_rounds-suc :
      (n i k : ℕ) (b : Block D) (bs : List (Block D)) {dk : Disk D}
      → IsDisk dk
      → k + i < dk.numblocks
      → length b.bytes ≡ dk.blocksize
      → write_rounds (suc n) i k (b ∷ bs) dk
        ≡ write_rounds n (i + 1) k bs (record dk {
          datafile = written dk.datafile (dk.offset + (k + i) * dk.blocksize) b.bytes;
        })
  unfolding write_rounds
  write_rounds-suc n i k b bs {dk} h inside size =
      let start = dk.offset + (k + i) * dk.blocksize in
      let wrote : mywrite dk.datafile start b.bytes dk.blocksize
          ≡ (written dk.datafile start b.bytes, dk.blocksize) =
        ground (
          arith,
          mywrite_lem dk.datafile start b.bytes dk.blocksize size
              (omega (arith, block-end-le h (k + i) inside, h.fits)),
          h.positive,
        ) in
      let full : (dk.blocksize == dk.blocksize) ≡ true = ground arith in
      rw (+W-eq k i (omega (arith, h.numbered)), block_offset_lem h (k + i) inside, wrote, full)
        refl

  pub write_rounds-WritesRun :
      (i k : ℕ) (bs : List (Block D)) {dk : Disk D}
      → IsDisk dk
      → k + i + length bs ≤ dk.numblocks
      → AllSized dk.blocksize bs
      → (dk' : Disk D) × (write_rounds (length bs) i k bs dk ≡ (dk', no_error))
        × WritesRun dk (k + i) bs dk'
  write_rounds-WritesRun i k [] {dk} h inside sized = (
    dk,
    unfold write_rounds in refl,
    record { shape = SameShape-refl dk; after = λ j. refl; kept = refl },
  )
  write_rounds-WritesRun i k (b ∷ bs) {dk} h inside sized =
      let dk' = record dk {
        datafile = written dk.datafile (dk.offset + (k + i) * dk.blocksize) b.bytes;
      } in
      let shape : SameShape dk dk' = record {
        offset = refl;
        numblocks = refl;
        blocksize = refl;
        limit = refl;
      } in
      let (dk'', e, w) =
        write_rounds-WritesRun (i + 1) k bs {dk = dk'} (SameShape-IsDisk shape h) (omega arith)
          sized.1 in
      (
        dk'',
        write_rounds-suc (length bs) i k b bs h (omega arith) sized.0 ∙ e,
        record {
          shape = SameShape-trans shape w.shape;
          after = λ j.
              w.after j
              ∙ ground (
                arith,
                stored-written {dk = dk} {dk' = dk'} (k + i) j b.bytes sized.0 shape refl,
                run_at-before bs (k + i + 1) j b.bytes,
                ap (λ q. run_at bs q j (stored dk' j)) (add_assoc k i 1),
              );
          kept = w.kept;
        },
      )
