-- ===== src/Disk/Geometry.antt =====
-- The rotational part of ModelAccess of btree_lab/disksystem.cc: how many sectors pass before the
-- first one of a request.
use native.Mathlib.Decide.{dec_le}
use native.Mathlib.Nat.{mod-eq_of_lt, mod-lt, add-mod_left, div-add-mod'}
use eecs.Prelude.{ℕ, ◌+◌, ◌-◌, ◌*◌, ◌%◌, ◌<◌, ◌≡◌, ◌∙◌, ap, true, false, leb, arith}
use eecs.Prelude.Words.{size_mod, ◌*W◌, +W-eq, -W-eq}
use eecs.Error.{no_error}
use eecs.Double.{Double}
use eecs.Disk.{Disk, sanity_check_config, sectorhop, track_blocks, model_access}

module _ {ℓ} {D : Type ℓ} (dk : Disk D) (req : ℕ) where
  -- Where the last sector and the requested one are below `blockspertrack`, a word, the hop is the
  -- rotational distance: less than a turn, and it leads from the last sector to the requested one.
  pub sectorhop_turn :
      dk.last_sector < dk.blockspertrack
      → req < dk.blockspertrack
      → dk.blockspertrack < size_mod
      → (sectorhop dk req < dk.blockspertrack)
        × ((dk.last_sector + sectorhop dk req) % dk.blockspertrack ≡ req)
  unfolding sectorhop
  sectorhop_turn last this word = elim (dec_le dk.last_sector req) [
    | yes p ↦
        let ahead : leb dk.last_sector req ≡ true = ground arith in
        rw (ahead, -W-eq req dk.last_sector p (omega arith))
          (omega arith, mod-eq_of_lt (omega arith) ∙ omega arith)
    | no p ↦
        let behind : leb dk.last_sector req ≡ false = ground arith in
        let back = dk.last_sector - req in
        rw
          (
            behind,
            -W-eq dk.last_sector req (omega arith) (omega arith),
            -W-eq dk.blockspertrack back (omega arith) word,
          )
          (
            omega arith,
            ap (λ t. t % dk.blockspertrack) (omega arith)
                ∙ add-mod_left dk.blockspertrack req
                ∙ mod-eq_of_lt this,
          )
  ]

module _ {ℓ} {D : Type ℓ} ⦃d : Double D⦄ (dk : Disk D) where
  -- ModelAccess does not divide by zero on a disk with a block that the constructor accepts.
  pub track_blocks-positive :
      sanity_check_config dk ≡ no_error → 0 < dk.numblocks → 0 < track_blocks dk
  unfolding sanity_check_config ◌*W◌
  track_blocks-positive sane some = elim (dec_le 1 (track_blocks dk)) [
    | yes positive ↦ positive
    | no zero_product ↦
        let none_left : dk.numheads *W dk.blockspertrack ≡ 0 = omega arith in
        absurd (ground (arith, rw none_left at sane))
  ]

  -- On a disk that passes SanityCheckConfig and has a block, after a request for at least one block
  -- whose end is a word, the head is over the track and the sector of the last block requested.
  pub model_access_head :
      (off n : ℕ)
      → 0 < n
      → off + n < size_mod
      → sanity_check_config dk ≡ no_error
      → 0 < dk.numblocks
      → ((model_access dk off n).0.last_track * track_blocks dk
            + (model_access dk off n).0.last_sector
            + 1
          ≡ off + n)
        × ((model_access dk off n).0.last_sector < track_blocks dk)
  unfolding model_access
  model_access_head off n some_block word sane some =
      let turn = track_blocks-positive sane some in
      rw (+W-eq off n word, -W-eq (off + n) 1 (omega arith) word)
        (omega (arith, div-add-mod' (off + n - 1) (track_blocks dk)), mod-lt (off + n - 1) turn)
