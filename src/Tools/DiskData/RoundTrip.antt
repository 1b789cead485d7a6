-- ===== src/Tools/DiskData/RoundTrip.antt =====
-- writedisk and then readdisk, over the files of a disk.
use mathlib.Core.List.{append-nil}
use eecs.Prelude.{
  ℕ, zero, suc, ◌+◌, ◌-◌, ◌*◌, ◌≤◌, ◌≡◌, ◌∙◌, refl, ap, List, [], ◌∷◌, ◌++◌, length, length-append,
  length-take, length-drop, length-replicate, take, drop, replicate, take_of_length-le, arith,
}
use eecs.Double.{Double}
use eecs.Block.{with_size}
use eecs.Outcome.{ok}
use eecs.Text.{atoi, visible}
use eecs.Disk
use eecs.Disk.{Disk}
use eecs.Disk.Blocks.{IsDisk, SameShape, SameShape-IsDisk, stored, length-stored}
use eecs.Disk.Runs.{blocks_from, AllSized}
use eecs.Disk.Same.{write-Same}
use eecs.Disk.Transfers.{bytes_of, read-ReadsBlocks, write-WritesBlocks, blocks_from-run_at}
use eecs.Disk.Init.{close_disk}
use eecs.Disk.Init.Reopen.{IsReady, IsReady-Same, reopened, reopened-IsReady, open_disk-close_disk}
use eecs.Tools.{Exit}
use eecs.Tools.DiskData.{padded, print_blocks, input_blocks, read_disk, write_disk}

module _ {ℓ} {A : Type ℓ} where
  take-append-drop : (n : ℕ) (s : List A) → take n s ++ drop n s ≡ s
  take-append-drop zero s = refl
  take-append-drop (suc n) [] = refl
  take-append-drop (suc n) (a ∷ s) = ap (λ r. a ∷ r) (take-append-drop n s)

pub length-padded : (n : ℕ) (s : List ℕ) → length (padded n s) ≡ n
length-padded n s = omega (
  arith,
  length-append (take n s) (replicate (n - length (take n s)) 0),
  length-take n s,
  length-replicate {A = ℕ} (n - length (take n s)) 0,
)

padded-take : (n : ℕ) (s : List ℕ) → n ≤ length s → padded n s ≡ take n s
padded-take n s h =
    let none_left : n - length (take n s) ≡ 0 = omega (arith, length-take n s) in
    rw none_left (append-nil (take n s))

module _ {ℓ} (D : Type ℓ) ⦃d : Double D⦄ where
  pub length-input_blocks : (n size : ℕ) (s : List ℕ) → length (input_blocks {D = D} n size s) ≡ n
  unfolding input_blocks
  length-input_blocks zero size s = refl
  length-input_blocks (suc n) size s = ap suc (length-input_blocks n size (drop size s))

  input_blocks-AllSized : (n size : ℕ) (s : List ℕ) → AllSized {D = D} size (input_blocks n size s)
  unfolding input_blocks
  input_blocks-AllSized zero size s = tt
  input_blocks-AllSized (suc n) size s =
      (length-padded size s, input_blocks-AllSized n size (drop size s))

  pub bytes_of-input_blocks :
      (n size : ℕ) (s : List ℕ) → length s ≡ n * size → bytes_of (input_blocks {D = D} n size s) ≡ s
  unfolding input_blocks
  bytes_of-input_blocks zero size [] h = refl
  bytes_of-input_blocks zero size (c ∷ s) h = absurd (omega arith)
  bytes_of-input_blocks (suc n) size s h =
      let product : suc n * size ≡ n * size + size = grind arith in
      let rest = bytes_of-input_blocks n size (drop size s) (omega (arith, length-drop size s)) in
      rw (padded-take size s (omega arith), rest) (take-append-drop size s)

module _ {ℓ} {D : Type ℓ} ⦃d : Double D⦄ where
  print_blocks-bytes_of :
      (dk : Disk D) (k n : ℕ) → print_blocks (blocks_from dk k n) ≡ bytes_of (blocks_from dk k n)
  unfolding print_blocks with_size
  print_blocks-bytes_of dk k zero = refl
  print_blocks-bytes_of dk k (suc n) =
      rw
        (
          print_blocks-bytes_of dk (k + 1) n,
          take_of_length-le dk.blocksize (stored dk k) (omega (arith, length-stored dk k)),
        )
        refl

  pub reopened-SameShape : (dk : Disk D) → SameShape dk (reopened dk)
  reopened-SameShape dk = record { offset = refl; numblocks = refl; blocksize = refl; limit = refl }

  read_disk_lem :
      (dk : Disk D) (room : ℕ) (filestem blocknum numblocks : List ℕ)
      → IsReady dk
      → IsDisk dk
      → atoi blocknum + atoi numblocks ≤ dk.numblocks
      → (e : Exit) × (read_disk D (filestem ∷ blocknum ∷ numblocks ∷ []) (close_disk room dk)
          ≡ ok e)
        × (e.status ≡ 0)
        × (e.out ≡ bytes_of (blocks_from (reopened dk) (atoi blocknum) (atoi numblocks)))
  unfolding read_disk
  read_disk_lem dk room filestem blocknum numblocks ready h inside =
      let k = atoi blocknum in
      let n = atoi numblocks in
      let r =
        read-ReadsBlocks {dk = reopened dk} (SameShape-IsDisk (reopened-SameShape dk) h) k n
          inside in
      let t = Disk.read (reopened dk) k n in
      (
        record {
          status = 0;
          out = print_blocks t.blocks;
          files = close_disk (close_disk room dk).room t.disk;
        },
        rw (open_disk-close_disk dk room filestem ready, r.rc) refl,
        refl,
        ap print_blocks r.run ∙ print_blocks-bytes_of (reopened dk) k n,
      )

  -- On the files of a disk that is ready, writedisk and then readdisk of the same run of blocks
  -- exit with 0, and readdisk prints the input without its white space, if what is left of the
  -- input is as long as the blocks.
  pub read_disk-write_disk :
      (dk : Disk D) (room : ℕ) (filestem blocknum numblocks input : List ℕ)
      → IsReady dk
      → IsDisk dk
      → atoi blocknum + atoi numblocks ≤ dk.numblocks
      → length (visible input) ≡ atoi numblocks * dk.blocksize
      → let args = filestem ∷ blocknum ∷ numblocks ∷ [] in
        (e : Exit) × (write_disk D args input (close_disk room dk) ≡ ok e)
        × (e.status ≡ 0)
        × (e' : Exit) × (read_disk D args e.files ≡ ok e')
        × (e'.status ≡ 0)
        × (e'.out ≡ visible input)
  unfolding write_disk
  read_disk-write_disk dk room filestem blocknum numblocks input ready h inside size =
      let k = atoi blocknum in
      let n = atoi numblocks in
      let bs = input_blocks {D = D} n dk.blocksize (visible input) in
      let count : length bs ≡ n = length-input_blocks D n dk.blocksize (visible input) in
      let opened = reopened dk in
      let t = Disk.write opened k n bs in
      let w = rw count at (
        write-WritesBlocks {dk = opened} (SameShape-IsDisk (reopened-SameShape dk) h) k bs
          (rw count inside) (input_blocks-AllSized D n dk.blocksize (visible input))) in
      let ready' : IsReady t.disk =
        IsReady-Same (write-Same opened k n bs) (reopened-IsReady ready) in
      let room' = (close_disk room dk).room in
      let (e', read, status, out) =
        read_disk_lem t.disk room' filestem blocknum numblocks ready'
          (SameShape-IsDisk w.shape (SameShape-IsDisk (reopened-SameShape dk) h))
          (rw w.shape.numblocks inside) in
      let shown : bytes_of (blocks_from (reopened t.disk) k (length bs)) ≡ bytes_of bs =
        blocks_from-run_at (reopened t.disk) k bs (stored opened)
          (λ j le. unfold stored in w.after j) in
      (
        record { status = 0; out = []; files = close_disk room' t.disk },
        rw (open_disk-close_disk dk room filestem ready, w.rc) refl,
        refl,
        e',
        read,
        status,
        out ∙ rw count at shown ∙ bytes_of-input_blocks D n dk.blocksize (visible input) size,
      )
