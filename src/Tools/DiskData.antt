-- ===== src/Tools/DiskData.antt =====
-- btree_lab/readdisk.cc and btree_lab/writedisk.cc: blocks of the disk to the standard output, and
-- blocks from the standard input. `cin >> c` skips white space, and at the end of the input leaves a
-- byte as it is.
pub mod RoundTrip
use eecs.Prelude.{ℕ, zero, suc, ◌-◌, List, [], ◌∷◌, ◌++◌, length, take, drop, replicate}
use eecs.Error.{Error, no_error}
use eecs.Double.{Double}
use eecs.Block.{Block, with_size}
use eecs.Outcome.{Outcome, ok, crash}
use eecs.Text.{atoi, visible}
use eecs.Disk
use eecs.Disk.{Disk, Transfer}
use eecs.Disk.Init.{Files, open_disk}
use eecs.Tools.{Exit, minus_one_status, usage_exit, with_disk, exit_with}

-- `n` characters of the input, and zeros past its end.
abbrev pub padded : ℕ → List ℕ → List ℕ
padded n s = let got = take n s in got ++ replicate (n - length got) 0

module _ {ℓ} {D : Type ℓ} where
  -- for (j=0;j<length;j++) cout << data[j], for each block
  unfoldable pub print_blocks : List (Block D) → List ℕ
  print_blocks [] = []
  print_blocks (b ∷ bs) = take b.length b.bytes ++ print_blocks bs

module _ {ℓ} {D : Type ℓ} ⦃d : Double D⦄ where
  -- The blocks that the loops over `cin >> block.data[j]` make of the characters `s`.
  unfoldable pub input_blocks : ℕ → ℕ → List ℕ → List (Block D)
  input_blocks zero size s = []
  input_blocks (suc n) size s =
      record (with_size size) { bytes = padded size s } ∷ input_blocks n size (drop size s)

module _ {ℓ} {D : Type ℓ} ⦃d : Double D⦄ where
  abbrev pub read_exit : Files → Transfer D → Outcome Exit
  read_exit files t = elim t.rc [
    | no_error ↦ exit_with 0 (print_blocks t.blocks) files t.disk
    | _ ↦ exit_with minus_one_status [] files t.disk
  ]

  abbrev pub write_exit : Files → Transfer D → Outcome Exit
  write_exit files t = elim t.rc [
    | no_error ↦ exit_with 0 [] files t.disk
    | _ ↦ exit_with minus_one_status [] files t.disk
  ]

module _ {ℓ} (D : Type ℓ) ⦃d : Double D⦄ where
  unfoldable pub read_disk : List (List ℕ) → Files → Outcome Exit
  read_disk (filestem ∷ blocknum ∷ numblocks ∷ _) files =
      with_disk {D = D} (open_disk files filestem)
        (λ dk. read_exit files (Disk.read dk (atoi blocknum) (atoi numblocks)))
  read_disk _ files = usage_exit files

  unfoldable pub write_disk : List (List ℕ) → List ℕ → Files → Outcome Exit
  write_disk (filestem ∷ blocknum ∷ numblocks ∷ _) input files =
      with_disk {D = D} (open_disk files filestem) (λ dk. write_exit files (
        Disk.write dk (atoi blocknum) (atoi numblocks)
          (input_blocks (atoi numblocks) dk.blocksize (visible input))))
  write_disk _ input files = usage_exit files
