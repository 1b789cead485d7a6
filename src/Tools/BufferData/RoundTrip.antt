-- ===== src/Tools/BufferData/RoundTrip.antt =====
-- writebuffer and then readbuffer, each with a cache of its own, over the files of a disk.
use eecs.Prelude.{ℕ, zero, suc, ◌+◌, ◌*◌, ◌≤◌, ◌≡◌, ◌∙◌, refl, List, [], ◌∷◌, length, arith}
use eecs.Prelude.Words.{+W-eq}
use eecs.Double.{Double}
use eecs.Outcome.{ok}
use eecs.Text.{atoi, visible}
use eecs.Disk.{Disk}
use eecs.Disk.Blocks.{IsDisk, SameShape, SameShape-IsDisk, SameShape-trans, stored}
use eecs.Disk.Runs.{blocks_from}
use eecs.Disk.Same.{Same, Same-trans}
use eecs.Disk.Transfers.{bytes_of, blocks_from-run_at}
use eecs.Disk.Init.{close_disk}
use eecs.Disk.Init.Reopen.{IsReady, IsReady-Same, reopened, reopened-IsReady, open_disk-close_disk}
use eecs.Cache
use eecs.Cache.{Cache, init}
use eecs.Cache.Coherent.{IsCoherent, view, init-IsCoherent}
use eecs.Cache.Detach.{detach-DetachesAll}
use eecs.Cache.Same.{detach-Same}
use eecs.Tools.{Exit}
use eecs.Tools.DiskData.{input_blocks}
use eecs.Tools.DiskData.RoundTrip.{length-input_blocks, bytes_of-input_blocks, reopened-SameShape}
use eecs.Tools.BufferData.{rounds, attached, read_buffer, write_buffer}
use eecs.Tools.BufferData.Loops.{views, read_blocks_lem, write_blocks_lem}

module _ {ℓ} {D : Type ℓ} ⦃d : Double D⦄ where
  pub rounds_lem : {dk : Disk D} (k n : ℕ) → IsDisk dk → k + n ≤ dk.numblocks → rounds k n ≡ n
  rounds_lem {dk} k n h inside = omega (arith, +W-eq k n (omega (arith, h.numbered)))

  pub attached_lem : (dk : Disk D) (cachesize : ℕ) → attached dk cachesize ≡ init dk cachesize
  unfolding Cache.attach init
  attached_lem dk cachesize = refl

  init-disk : (dk : Disk D) (cachesize : ℕ) → (init dk cachesize).disk ≡ dk
  unfolding init
  init-disk dk cachesize = refl

  views-stored :
      (n k : ℕ) (c : Cache D) (dk : Disk D)
      → ((j : ℕ) → view c j ≡ stored dk j)
      → views c k n ≡ bytes_of (blocks_from dk k n)
  views-stored zero k c dk same = refl
  views-stored (suc n) k c dk same = rw (same k, views-stored n (k + 1) c dk same) refl

  -- The disk that is left when a tool ends: cache.Detach(), and the destructor's.
  abbrev pub left : Cache D → Disk D
  left c = (Cache.detach (Cache.detach c).0).0.disk

  -- What it is, if the cache is coherent.
  pub record Leaves (c : Cache D) : Type ℓ where
    pub shape : SameShape c.disk (left c)
    pub disk : Same c.disk (left c)
    pub after : (j : ℕ) → stored (left c) j ≡ view c j

  pub left-Leaves : {c : Cache D} → IsCoherent c → Leaves c
  left-Leaves {c} h =
      let w = detach-DetachesAll h in
      let v = detach-DetachesAll w.coherent in
      record {
        shape = SameShape-trans w.shape v.shape;
        disk = Same-trans (detach-Same c) (detach-Same (Cache.detach c).0);
        after = λ j. v.after j ∙ w.same j;
      }

  reopened-IsDisk : {dk : Disk D} → IsDisk dk → IsDisk (reopened dk)
  reopened-IsDisk {dk} h = SameShape-IsDisk (reopened-SameShape dk) h

  read_buffer_lem :
      (dk : Disk D) (room : ℕ) (cachesize filestem blocknum numblocks : List ℕ)
      → IsReady dk
      → IsDisk dk
      → atoi blocknum + atoi numblocks ≤ dk.numblocks
      → (e : Exit) × (read_buffer D
            (cachesize ∷ filestem ∷ blocknum ∷ numblocks ∷ [])
            (close_disk room dk)
          ≡ ok e)
        × (e.status ≡ 0)
        × (e.out ≡ bytes_of (blocks_from (reopened dk) (atoi blocknum) (atoi numblocks)))
  unfolding read_buffer init
  read_buffer_lem dk room cachesize filestem blocknum numblocks ready h inside =
      let k = atoi blocknum in
      let n = atoi numblocks in
      let size = atoi cachesize in
      let count = rounds_lem k n h inside in
      let (coherent, shown) = init-IsCoherent (reopened dk) size (reopened-IsDisk h) in
      let (c, e, w, same) = read_blocks_lem n k {c = init (reopened dk) size} coherent tt inside in
      (
        record {
          status = 0;
          out = views (init (reopened dk) size) k n;
          files = close_disk (close_disk room dk).room (left c);
        },
        rw (open_disk-close_disk dk room filestem ready, attached_lem (reopened dk) size, count, e)
            refl,
        refl,
        views-stored n k (init (reopened dk) size) (reopened dk) shown,
      )

  -- On the files of a disk that is ready, writebuffer and then readbuffer of the same run of
  -- blocks, with caches of any sizes, exit with 0, and readbuffer prints the input without its
  -- white space, if what is left of the input is as long as the blocks.
  pub read_buffer-write_buffer :
      (dk : Disk D) (room : ℕ) (filestem write_cache read_cache blocknum numblocks input : List ℕ)
      → IsReady dk
      → IsDisk dk
      → atoi blocknum + atoi numblocks ≤ dk.numblocks
      → length (visible input) ≡ atoi numblocks * dk.blocksize
      → (e : Exit) × (write_buffer D
            (filestem ∷ write_cache ∷ blocknum ∷ numblocks ∷ [])
            input
            (close_disk room dk)
          ≡ ok e)
        × (e.status ≡ 0)
        × (e' : Exit) × (read_buffer D (read_cache ∷ filestem ∷ blocknum ∷ numblocks ∷ []) e.files
            ≡ ok e')
        × (e'.status ≡ 0)
        × (e'.out ≡ visible input)
  unfolding write_buffer init
  read_buffer-write_buffer dk room filestem write_cache read_cache blocknum numblocks input ready h
        inside size =
      let k = atoi blocknum in
      let n = atoi numblocks in
      let bs = input_blocks {D = D} n dk.blocksize (visible input) in
      let start = init (reopened dk) (atoi write_cache) in
      let count = rounds_lem k n h inside in
      let (coherent, shown) =
        init-IsCoherent (reopened dk) (atoi write_cache) (reopened-IsDisk h) in
      let (c, e, w, after) = write_blocks_lem n k (visible input) {c = start} coherent inside in
      let v = left-Leaves w.coherent in
      let shape = SameShape-trans w.shape v.shape in
      let end = left c in
      let room' = (close_disk room dk).room in
      let ready' : IsReady end = IsReady-Same (Same-trans w.disk v.disk) (reopened-IsReady ready) in
      let (e', read, status, out) =
        read_buffer_lem end room' read_cache filestem blocknum numblocks ready'
          (SameShape-IsDisk shape (reopened-IsDisk h)) (rw shape.numblocks inside) in
      let bytes : bytes_of (blocks_from (reopened end) k (length bs)) ≡ bytes_of bs =
        blocks_from-run_at (reopened end) k bs (view start)
          (λ j le. unfold stored in v.after j ∙ after j) in
      (
        record { status = 0; out = []; files = close_disk room' end },
        rw
            (
              open_disk-close_disk dk room filestem ready,
              attached_lem (reopened dk) (atoi write_cache),
              count,
              e,
            )
            refl,
        refl,
        e',
        read,
        status,
        out
            ∙ rw (length-input_blocks D n dk.blocksize (visible input)) at bytes
            ∙ bytes_of-input_blocks D n dk.blocksize (visible input) size,
      )
