-- ===== src/Cache/Coherent.antt =====
-- The invariant of the buffer cache and what a client sees of it: the latest bytes of each block,
-- wherever they lie.
use eecs.Prelude.{
  ℕ, ◌<◌, ◌≡◌, refl, false, Option, none, some, List, length, Option-cases, inl, inr,
}
use eecs.Double.{Double}
use eecs.Block.{Block}
use eecs.Disk.{Disk}
use eecs.Disk.Blocks.{IsDisk, stored, length-stored}
use eecs.BlockMap.{find, IsSorted}
use eecs.Cache.{Cache, init}

-- A cached block is one of the disk's, and agrees with it unless it is dirty.
pub record IsCached {ℓ} {D : Type ℓ} (dk : Disk D) (k : ℕ) (b : Block D) : Type 0 where
  pub inside : k < dk.numblocks
  pub size : length b.bytes ≡ dk.blocksize
  pub clean : b.dirty ≡ false → b.bytes ≡ stored dk k

pub record IsCoherent {ℓ} {D : Type ℓ} (c : Cache D) : Type ℓ where
  pub disk : IsDisk c.disk
  pub sorted : IsSorted c.blockmap
  pub cached : (k : ℕ) (b : Block D) → find k c.blockmap ≡ some b → IsCached c.disk k b

module _ {ℓ} {D : Type ℓ} where
  -- The cached bytes, or else those on the disk.
  abbrev pub over : Option (Block D) → List ℕ → List ℕ
  over none bytes = bytes
  over (some b) bytes = b.bytes

  unfoldable pub view : Cache D → ℕ → List ℕ
  view c k = over (find k c.blockmap) (stored c.disk k)

  pub length-view : {c : Cache D} (k : ℕ) → IsCoherent c → length (view c k) ≡ c.disk.blocksize
  unfolding view
  length-view {c} k h = elim (Option-cases (find k c.blockmap)) [
    | inl miss ↦ rw miss (length-stored c.disk k)
    | inr (b, hit) ↦ rw hit ((h.cached k b hit).size)
  ]

module _ {ℓ} {D : Type ℓ} ⦃d : Double D⦄ where
  -- A new cache over a disk shows what the disk holds.
  pub init-IsCoherent :
      (dk : Disk D) (cs : ℕ)
      → IsDisk dk
      → IsCoherent (init dk cs) × ((k : ℕ) → view (init dk cs) k ≡ stored dk k)
  unfolding init view find
  init-IsCoherent dk cs h = (record { disk = h; sorted = tt; cached = λ k b e. cc }, λ k. refl)
