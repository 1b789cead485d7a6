-- ===== src/Tools/BufferData/Freed.antt =====
-- freebuffer over the files of a disk.
use eecs.Prelude.{
  ℕ, zero, suc, ◌+◌, ◌-◌, ◌≤◌, ◌<◌, ◌≡◌, ◌∙◌, refl, ap, false, ◌&&◌, List, [], ◌∷◌, ltb, leb,
  if◌then◌else◌, arith,
}
use eecs.Prelude.Words.{size_mod, +W-eq}
use eecs.Bitmap.{clear_bits}
use eecs.Error.{no_error}
use eecs.Double.{Double}
use eecs.Bitmap.Laws.{IsBitmap, get_bit-clear_bits}
use eecs.Outcome.{ok}
use eecs.Text.{atoi}
use eecs.Disk.{Disk, is_block_allocated, notify_deallocate_blocks}
use eecs.Disk.Alloc.{notify_blocks_lem}
use eecs.Disk.Blocks.{IsDisk, stored}
use eecs.Disk.Same.{Same, Same-refl, Same-trans}
use eecs.Disk.Init.{open_disk, close_disk}
use eecs.Disk.Init.Reopen.{IsReady, IsReady-Same, reopened, reopened-IsReady, open_disk-close_disk}
use eecs.Cache
use eecs.Cache.{Cache, init}
use eecs.Cache.Same.{notify_deallocate_block-Same}
use eecs.Tools.{Exit}
use eecs.Tools.BufferData.{free_blocks, free_buffer}
use eecs.Tools.BufferData.RoundTrip.{rounds_lem, attached_lem}

module _ {ℓ} {D : Type ℓ} ⦃d : Double D⦄ where
  -- What the end of the loop knows.
  record Frees (c : Cache D) (k n : ℕ) (r : Cache D × eecs.Error.Error) : Type ℓ where
    rc : r.1 ≡ no_error
    bitmap : IsBitmap c.disk.numblocks r.0.disk.bitmap
    empty : r.0.blockmap ≡ c.blockmap
    disk : Same c.disk r.0.disk
    datafile : r.0.disk.datafile ≡ c.disk.datafile
    freed :
        (y : ℕ)
        → is_block_allocated r.0.disk y
          ≡ (if leb k y && ltb y (k + n) then false else is_block_allocated c.disk y)

  dealloc_step :
      (dk : Disk D) (k : ℕ)
      → k + 1 ≤ dk.numblocks
      → dk.numblocks < size_mod
      → notify_deallocate_blocks dk k 1
        ≡ (record dk { bitmap = clear_bits 1 k dk.bitmap }, no_error)
  unfolding notify_deallocate_blocks
  dealloc_step dk k inside word =
      let guard : ltb dk.numblocks (k + 1) ≡ false = ground arith in
      let rounds : k + 1 - k ≡ 1 = omega arith in rw (+W-eq k 1 (omega arith), guard, rounds) refl

  free_block-Frees :
      (c : Cache D) (k : ℕ)
      → IsBitmap c.disk.numblocks c.disk.bitmap
      → k + 1 ≤ c.disk.numblocks
      → c.disk.numblocks < size_mod
      → Frees c k 1 (Cache.notify_deallocate_block c k)
  unfolding Cache.notify_deallocate_block
  free_block-Frees c k m inside word =
      let step = dealloc_step c.disk k inside word in
      record {
        rc = ap (λ r. r.1) step;
        bitmap = rw (ap (λ r. r.0.bitmap) step) (get_bit-clear_bits 1 k 0 m inside).0;
        empty = refl;
        disk = notify_deallocate_block-Same c k;
        datafile = ap (λ r. r.0.datafile) step;
        freed = λ y. (notify_blocks_lem c.disk k 1 y m inside word).3;
      }

  free_blocks-Frees :
      (n k : ℕ) (c : Cache D)
      → IsBitmap c.disk.numblocks c.disk.bitmap
      → k + n ≤ c.disk.numblocks
      → c.disk.numblocks < size_mod
      → Frees c k n (free_blocks n k c)
  unfolding free_blocks
  free_blocks-Frees zero k c m inside word = record {
    rc = refl;
    bitmap = m;
    empty = refl;
    disk = Same-refl c.disk;
    datafile = refl;
    freed = λ y. ground arith;
  }
  free_blocks-Frees (suc n) k c m inside word =
      let one = free_block-Frees c k m (omega arith) word in
      let c1 = (Cache.notify_deallocate_block c k).0 in
      let size = one.disk.numblocks in
      let rest =
        free_blocks-Frees n (k + 1) c1 (simp size one.bitmap) (omega (arith, size))
          (omega (arith, size)) in
      rw one.rc (record {
        rc = rest.rc;
        bitmap = simp size at rest.bitmap;
        empty = rest.empty ∙ one.empty;
        disk = Same-trans one.disk rest.disk;
        datafile = rest.datafile ∙ one.datafile;
        freed = λ y. ground (arith, rest.freed y, one.freed y);
      })

  detach_empty :
      (c : Cache D)
      → c.blockmap ≡ []
      → ((Cache.detach c).0.disk ≡ c.disk) × ((Cache.detach c).0.blockmap ≡ [])
  unfolding Cache.detach Cache.detach_loop
  detach_empty c e = simp e (refl, refl)

  left_empty : (c : Cache D) → c.blockmap ≡ [] → (Cache.detach (Cache.detach c).0).0.disk ≡ c.disk
  left_empty c e =
      let (disk, empty) = detach_empty c e in
      let (disk', _) = detach_empty (Cache.detach c).0 empty in disk' ∙ disk

  init-blockmap : (dk : Disk D) (cachesize : ℕ) → (init dk cachesize).blockmap ≡ []
  unfolding init
  init-blockmap dk cachesize = refl

  -- On the files of a disk that can be closed and opened, with a bitmap of bytes for its blocks,
  -- freebuffer of a run of blocks of the disk exits with 0 and prints nothing; the files that it
  -- leaves can be opened, with no block of the run allocated, and every other block allocated or
  -- not and the bytes of every block as before.
  pub open_disk-free_buffer :
      (dk : Disk D) (room : ℕ) (filestem cachesize blocknum numblocks : List ℕ)
      → IsReady dk
      → IsDisk dk
      → IsBitmap dk.numblocks dk.bitmap
      → atoi blocknum + atoi numblocks ≤ dk.numblocks
      → (e : Exit) × (free_buffer D
            (filestem ∷ cachesize ∷ blocknum ∷ numblocks ∷ [])
            (close_disk room dk)
          ≡ ok e)
        × (e.status ≡ 0)
        × (e.out ≡ [])
        × (dk' : Disk D) × (open_disk e.files filestem ≡ ok (dk', no_error))
        × ((y : ℕ)
            → is_block_allocated dk' y ≡ (
                if leb (atoi blocknum) y && ltb y (atoi blocknum + atoi numblocks)
                then false
                else is_block_allocated dk y))
        × ((j : ℕ) → stored dk' j ≡ stored dk j)
  unfolding free_buffer stored is_block_allocated init
  open_disk-free_buffer dk room filestem cachesize blocknum numblocks ready h m inside =
      let k = atoi blocknum in
      let n = atoi numblocks in
      let start = init (reopened dk) (atoi cachesize) in
      let count = rounds_lem k n h inside in
      let f = free_blocks-Frees n k start m inside (omega (arith, h.numbered)) in
      let c = (free_blocks n k start).0 in
      let end = left_empty c (f.empty ∙ init-blockmap (reopened dk) (atoi cachesize)) in
      let room' = (close_disk room dk).room in
      let ready' : IsReady c.disk = IsReady-Same f.disk (reopened-IsReady ready) in
      (
        record { status = 0; out = []; files = close_disk room' c.disk },
        rw
            (
              open_disk-close_disk dk room filestem ready,
              attached_lem (reopened dk) (atoi cachesize),
              count,
              f.rc,
              end,
            )
            refl,
        refl,
        refl,
        reopened c.disk,
        open_disk-close_disk c.disk room' filestem ready',
        λ y. f.freed y,
        λ j. simp (f.datafile, f.disk.offset, f.disk.blocksize) refl,
      )
