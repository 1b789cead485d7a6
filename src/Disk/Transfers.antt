-- ===== src/Disk/Transfers.antt =====
-- Read and Write of btree_lab/disksystem.cc as a whole, over a run of blocks.
use native.Mathlib.Nat.{add-zero}
use eecs.Prelude.{
  ℕ, ◌+◌, ◌≤◌, ◌≡◌, refl, ap, sym, ◌∙◌, false, List, [], ◌∷◌, ◌++◌, length, ltb, arith,
}
use eecs.Prelude.Words.{+W-eq, ◌+W◌}
use eecs.Error.{no_error}
use eecs.Double.{Double}
use eecs.Block.{Block}
use eecs.Disk.{Disk, Transfer, model_access, read, write}
use eecs.Disk.Blocks.{IsDisk, SameShape, SameShape-IsDisk, SameShape-trans, stored, stored_congr}
use eecs.Disk.Runs.{
  blocks_from, run_at, AllSized, blocks_from_congr, read_rounds-ReadsRun, write_rounds-WritesRun,
}

module _ {ℓ} {D : Type ℓ} ⦃d : Double D⦄ where
  read-guard :
      (k n : ℕ) {dk : Disk D} → IsDisk dk → k + n ≤ dk.numblocks → ltb dk.numblocks (k +W n) ≡ false
  read-guard k n h inside = ground (arith, +W-eq k n, h.numbered)

  -- What a transfer of blocks leaves of the disk: all but the data file and the place of the head.
  abbrev pub Kept : Disk D → Disk D → Type ℓ
  Kept dk dk' = dk' ≡ record dk {
    datafile = dk'.datafile;
    last_track = dk'.last_track;
    last_sector = dk'.last_sector;
  }

  Kept-moved :
      (dk dk' : Disk D) (t s : ℕ)
      → dk' ≡ record dk { datafile = dk'.datafile; last_track = t; last_sector = s }
      → Kept dk dk'
  Kept-moved dk dk' t s e =
      e
      ∙ ap (λ q. record dk { datafile = dk'.datafile; last_track = q; last_sector = s })
          (sym (ap (λ x. x.last_track) e))
      ∙ ap
          (λ q. record dk { datafile = dk'.datafile; last_track = dk'.last_track; last_sector = q })
          (sym (ap (λ x. x.last_sector) e))

  pub record ReadsBlocks (dk : Disk D) (k n : ℕ) (t : Transfer D) : Type ℓ where
    pub rc : t.rc ≡ no_error
    pub run : t.blocks ≡ blocks_from dk k n
    pub shape : SameShape dk t.disk
    pub same : (j : ℕ) → stored t.disk j ≡ stored dk j
    pub kept : Kept dk t.disk

  pub record WritesBlocks (dk : Disk D) (k : ℕ) (bs : List (Block D)) (t : Transfer D)
      : Type ℓ where
    pub rc : t.rc ≡ no_error
    pub shape : SameShape dk t.disk
    pub after : (j : ℕ) → stored t.disk j ≡ run_at bs k j (stored dk j)
    pub kept : Kept dk t.disk

  -- Read of a run of blocks of the disk succeeds, returns their bytes in order, and changes the bytes
  -- of no block.
  pub read-ReadsBlocks :
      {dk : Disk D}
      → IsDisk dk
      → (k n : ℕ) → k + n ≤ dk.numblocks
      → ReadsBlocks dk k n (read dk k n)
  unfolding read model_access
  read-ReadsBlocks {dk} h k n inside =
      let moved = (model_access dk k n).0 in
      let shape : SameShape dk moved = record {
        offset = refl;
        numblocks = refl;
        blocksize = refl;
        limit = refl;
      } in
      let same = λ (j : ℕ). stored_congr {dk = dk} {dk' = moved} j shape (λ q. refl) in
      let (dk', blocks, e, w) =
        read_rounds-ReadsRun n 0 k {dk = moved} (SameShape-IsDisk shape h) (omega arith) in
      rw (read-guard k n h inside, e)
        (record {
          rc = refl;
          run =
              w.run
              ∙ blocks_from_congr n (k + 0) dk moved refl same
              ∙ ap (λ j. blocks_from dk j n) (add-zero k);
          shape = SameShape-trans shape w.shape;
          same = λ j. w.same j ∙ same j;
          kept = Kept-moved dk dk' moved.last_track moved.last_sector w.kept;
        })

  -- Write of blocks of the disk's size to a run of blocks of the disk succeeds, puts each block's
  -- bytes in its place, and changes no other.
  pub write-WritesBlocks :
      {dk : Disk D}
      → IsDisk dk
      → (k : ℕ) (bs : List (Block D)) → k + length bs ≤ dk.numblocks
      → AllSized dk.blocksize bs
      → WritesBlocks dk k bs (write dk k (length bs) bs)
  unfolding write model_access
  write-WritesBlocks {dk} h k bs inside sized =
      let moved = (model_access dk k (length bs)).0 in
      let shape : SameShape dk moved = record {
        offset = refl;
        numblocks = refl;
        blocksize = refl;
        limit = refl;
      } in
      let same = λ (j : ℕ). stored_congr {dk = dk} {dk' = moved} j shape (λ q. refl) in
      let (dk', e, w) =
        write_rounds-WritesRun 0 k bs {dk = moved} (SameShape-IsDisk shape h) (omega arith) sized in
      rw (read-guard k (length bs) h inside, e)
        (record {
          rc = refl;
          shape = SameShape-trans shape w.shape;
          after = λ j.
              w.after j
              ∙ ap (run_at bs (k + 0) j) (same j)
              ∙ ap (λ q. run_at bs q j (stored dk j)) (add-zero k);
          kept = Kept-moved dk dk' moved.last_track moved.last_sector w.kept;
        })

  -- The bytes of blocks, one after the other.
  abbrev pub bytes_of : List (Block D) → List ℕ
  bytes_of [] = []
  bytes_of (b ∷ bs) = b.bytes ++ bytes_of bs

  pub blocks_from-run_at :
      (dk : Disk D) (k : ℕ) (bs : List (Block D)) (old : ℕ → List ℕ)
      → ((j : ℕ) → k ≤ j → stored dk j ≡ run_at bs k j (old j))
      → bytes_of (blocks_from dk k (length bs)) ≡ bytes_of bs
  blocks_from-run_at dk k [] old after = refl
  blocks_from-run_at dk k (b ∷ bs) old after =
      let head : stored dk k ≡ b.bytes = ground (arith, after k (omega arith)) in
      let rest =
        blocks_from-run_at dk (k + 1) bs old
          (λ j le. ground (arith, after j (omega (arith, le)), le)) in
      rw (head, rest) refl

  -- What Write has put into a run of blocks, Read of the same run gives back, byte for byte.
  pub read-write :
      {dk : Disk D}
      → IsDisk dk
      → (k : ℕ) (bs : List (Block D)) → k + length bs ≤ dk.numblocks
      → AllSized dk.blocksize bs
      → let dk' = (write dk k (length bs) bs).disk in
        ((write dk k (length bs) bs).rc ≡ no_error)
        × ((read dk' k (length bs)).rc ≡ no_error)
        × (bytes_of (read dk' k (length bs)).blocks ≡ bytes_of bs)
  read-write {dk} h k bs inside sized =
      let w = write-WritesBlocks h k bs inside sized in
      let dk' = (write dk k (length bs) bs).disk in
      let r =
        read-ReadsBlocks {dk = dk'} (SameShape-IsDisk w.shape h) k (length bs)
          (rw w.shape.numblocks inside) in
      (w.rc, r.rc, ap bytes_of r.run ∙ blocks_from-run_at dk' k bs (stored dk) (λ j le. w.after j))
