-- ===== src/Tools/BufferData/Loops.antt =====
-- The loops of readbuffer, writebuffer and freebuffer over a run of blocks of the disk.
use eecs.Prelude.{
  ℕ, zero, suc, ◌+◌, ◌≤◌, ◌<◌, ◌≡◌, ◌∙◌, refl, sym, ap, List, [], ◌++◌, take, drop,
  take_of_length-le, arith,
}
use eecs.Error.{no_error}
use eecs.Double.{Double}
use eecs.Block.{Block, with_size}
use eecs.Disk.Blocks.{SameShape, SameShape-refl, SameShape-trans}
use eecs.Disk.Runs.{run_at, run_at-before}
use eecs.Disk.Same.{Same, Same-refl, Same-trans}
use eecs.Cache
use eecs.Cache.{Cache, is_error, get_block_size}
use eecs.Cache.Coherent.{IsCoherent, view}
use eecs.Cache.Calls.{read_block-Returns, write_block-Stores}
use eecs.Cache.Refine.{notify-Simulates}
use eecs.Cache.Labelled.{AllLabelled, read_block-Labelled}
use eecs.Cache.Same.{read_block-SameDisk, write_block-SameDisk, notify_allocate_block-Same}
use eecs.Tools.DiskData.{input_blocks}
use eecs.Tools.DiskData.RoundTrip.{length-padded}
use eecs.Tools.BufferData.{read_blocks, write_blocks, input_block}

module _ {ℓ} {D : Type ℓ} where
  -- The bytes in view from block `k` on.
  abbrev pub views : Cache D → ℕ → ℕ → List ℕ
  views c k zero = []
  views c k (suc n) = view c k ++ views c (k + 1) n

  views_congr :
      (n k : ℕ) (c c' : Cache D) → ((j : ℕ) → view c' j ≡ view c j) → views c' k n ≡ views c k n
  views_congr zero k c c' same = refl
  views_congr (suc n) k c c' same = rw (same k, views_congr n (k + 1) c c' same) refl

  -- A run of a loop that keeps the cache coherent and its disk's parameters.
  pub record Carries (c c' : Cache D) : Type ℓ where
    pub coherent : IsCoherent c'
    pub shape : SameShape c.disk c'.disk
    pub disk : Same c.disk c'.disk

module _ {ℓ} {D : Type ℓ} ⦃d : Double D⦄ where
  pub read_blocks_lem :
      (n k : ℕ) {c : Cache D}
      → IsCoherent c
      → AllLabelled c.blockmap
      → k + n ≤ c.disk.numblocks
      → (c' : Cache D) × (read_blocks n k c ≡ (views c k n, c', no_error))
        × Carries c c'
        × ((j : ℕ) → view c' j ≡ view c j)
  unfolding read_blocks
  read_blocks_lem zero k {c} h all inside = (
    c,
    refl,
    record { coherent = h; shape = SameShape-refl c.disk; disk = Same-refl c.disk },
    λ j. refl,
  )
  read_blocks_lem (suc n) k {c} h all inside =
      let out = with_size (get_block_size c) in
      let r = read_block-Returns k out h (omega arith) in
      let (label, all') = read_block-Labelled k out h (omega arith) all in
      let got = Cache.read_block c k out in
      let (c', e, w, same) =
        read_blocks_lem n (k + 1) r.coherent all' (omega (arith, r.shape.numblocks)) in
      let whole : take got.outblock.length got.outblock.bytes ≡ view c k =
        take_of_length-le got.outblock.length got.outblock.bytes (omega (arith, label)) ∙ r.bytes in
      (
        c',
        rw (e, r.rc, whole, views_congr n (k + 1) c got.cache r.same) refl,
        record {
          coherent = w.coherent;
          shape = SameShape-trans r.shape w.shape;
          disk = Same-trans (read_block-SameDisk c k out) w.disk;
        },
        λ j. same j ∙ r.same j,
      )

  run_at_congr :
      (bs : List (Block D)) (k j : ℕ) {old new : List ℕ}
      → new ≡ old
      → run_at bs k j new ≡ run_at bs k j old
  run_at_congr bs k j e = ap (run_at bs k j) e

  pub write_blocks_lem :
      (n k : ℕ) (s : List ℕ) {c : Cache D}
      → IsCoherent c
      → k + n ≤ c.disk.numblocks
      → (c' : Cache D) × (write_blocks n k s c ≡ (c', no_error))
        × Carries c c'
        × ((j : ℕ) → view c' j ≡ run_at (input_blocks {D = D} n c.disk.blocksize s) k j (view c j))
  unfolding write_blocks input_blocks
  write_blocks_lem zero k s {c} h inside = (
    c,
    refl,
    record { coherent = h; shape = SameShape-refl c.disk; disk = Same-refl c.disk },
    λ j. refl,
  )
  write_blocks_lem (suc n) k s {c} h inside =
      let size = c.disk.blocksize in
      let within : k < c.disk.numblocks = omega arith in
      let b = input_block {D = D} size s in
      let bs = input_blocks {D = D} n size (drop size s) in
      let a = (notify-Simulates (view c) k h within (λ j. refl)).0 in
      let c1 = (Cache.notify_allocate_block c k).0 in
      let rc : (Cache.notify_allocate_block c k).1 ≡ no_error = ap (λ r. r.0) a.reply in
      let w =
        write_block-Stores k b a.coherent (rw a.shape.numblocks within)
          (length-padded size s ∙ sym a.shape.blocksize) in
      let c2 = (Cache.write_block c1 k b).0 in
      let shape = SameShape-trans a.shape w.shape in
      let (c3, e, v, after) =
        write_blocks_lem n (k + 1) (drop size s) {c = c2} w.coherent
          (omega (arith, shape.numblocks)) in
      let shown = λ (j : ℕ).
        after j
        ∙ ap (λ m. run_at (input_blocks {D = D} n m (drop size s)) (k + 1) j (view c2 j))
            shape.blocksize in
      (
        c3,
        rw (rc, w.rc) e,
        record {
          coherent = v.coherent;
          shape = SameShape-trans shape v.shape;
          disk =
              Same-trans (Same-trans (notify_allocate_block-Same c k) (write_block-SameDisk c1 k b))
                v.disk;
        },
        λ j. shown j ∙ ground (arith, w.after j, a.view j, run_at-before bs (k + 1) j b.bytes),
      )
