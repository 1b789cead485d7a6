-- ===== src/Disk/Print.antt =====
-- DiskSystem::Print of btree_lab/disksystem.cc.
use eecs.Prelude.{
  ℕ, zero, suc, ◌+◌, ◌<◌, ◌≡◌, refl, List, [], ◌∷◌, ◌++◌, get_or, if◌then◌else◌, arith,
}
use eecs.Double.{Double}
use eecs.Text.{codes, print_unsigned}
use eecs.Disk.{Disk, is_block_allocated}

module _ {ℓ} {D : Type ℓ} where
  -- The loop over the blocks: `n` are left, from block `i` on.
  unfoldable pub allocation_map : ℕ → ℕ → Disk D → List ℕ
  allocation_map zero i dk = []
  allocation_map (suc n) i dk =
      (if is_block_allocated dk i then b'*' else b'.') ∷ allocation_map n (i + 1) dk

  -- The map has a character for each block, a `*` where it is allocated and a `.` where it is not.
  pub get_or-allocation_map :
      (n i k : ℕ) (dk : Disk D)
      → k < n
      → get_or (allocation_map n i dk) k 0 ≡ (if is_block_allocated dk (i + k) then b'*' else b'.')
  unfolding allocation_map
  get_or-allocation_map zero i k dk h = absurd (omega arith)
  get_or-allocation_map (suc n) i zero dk h = let same : i + 0 ≡ i = omega arith in rw same refl
  get_or-allocation_map (suc n) i (suc k) dk h =
      let same : i + suc k ≡ i + 1 + k = omega arith in
      rw same (get_or-allocation_map n (i + 1) k dk (omega arith))

module _ {ℓ} {D : Type ℓ} ⦃d : Double D⦄ where
  unfoldable pub print_disk : Disk D → List ℕ
  print_disk dk =
      codes "DiskSystem(diskfilestem="
      ++ dk.diskfilestem
      ++ codes ", offset="
      ++ print_unsigned dk.offset
      ++ codes ", numblocks="
      ++ print_unsigned dk.numblocks
      ++ codes ", blocksize="
      ++ print_unsigned dk.blocksize
      ++ codes ", numheads="
      ++ print_unsigned dk.numheads
      ++ codes ", blockspertrack="
      ++ print_unsigned dk.blockspertrack
      ++ codes ", numtracks="
      ++ print_unsigned dk.numtracks
      ++ codes ", last_track="
      ++ print_unsigned dk.last_track
      ++ codes ", last_sector="
      ++ print_unsigned dk.last_sector
      ++ codes ", averageseeklatency="
      ++ d.show dk.averageseeklatency
      ++ codes ", trackseeklatency="
      ++ d.show dk.trackseeklatency
      ++ codes ", rotationallatency="
      ++ d.show dk.rotationallatency
      ++ codes ", bitmap="
      ++ allocation_map dk.numblocks 0 dk
      ++ codes ")"
