-- ===== src/Tools/MakeDisk.antt =====
-- btree_lab/makedisk.cc, btree_lab/deletedisk.cc and btree_lab/infodisk.cc.
use eecs.Prelude.{ℕ, true, List, [], ◌∷◌}
use eecs.Double.{Double}
use eecs.Outcome.{Outcome, ok, crash}
use eecs.Text.{atoi, or_else}
use eecs.Disk.Init.{Files, no_files, with_parameters, construct, open_disk}
use eecs.Tools.{Exit, usage_exit, with_disk, exit_with}

module _ {ℓ} {D : Type ℓ} ⦃d : Double D⦄ where
  abbrev pub atof : List ℕ → D
  atof s = or_else (d.scan s) (d.of_size 0)

module _ {ℓ} (D : Type ℓ) ⦃d : Double D⦄ where
  unfoldable pub make_disk : List (List ℕ) → Files → Outcome Exit
  make_disk
        (filestem ∷ blocks ∷ blocksize ∷ heads ∷ blockspertrack ∷ tracks ∷ avgseek ∷ trackseek
          ∷ rotlat ∷ _)
        files =
      with_disk {D = D}
        (construct files true (
          with_parameters filestem 0 (atoi blocks) (atoi blocksize) (atoi heads)
            (atoi blockspertrack) (atoi tracks) (atof avgseek) (atof trackseek) (atof rotlat)))
        (exit_with 0 [] files)
  make_disk _ files = usage_exit files

  -- The disk is only printed, on cerr. A name that is not there is undefined.
  unfoldable pub info_disk : List (List ℕ) → Files → Outcome Exit
  info_disk [] files = crash
  info_disk (filestem ∷ _) files =
      with_disk {D = D} (open_disk files filestem) (exit_with 0 [] files)

unfoldable pub delete_disk : List (List ℕ) → Files → Outcome Exit
delete_disk [] files = usage_exit files
delete_disk (filestem ∷ _) files = ok (record { status = 0; out = []; files = no_files files.room })
