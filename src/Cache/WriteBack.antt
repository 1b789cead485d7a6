-- ===== src/Cache/WriteBack.antt =====
-- Writing a cached block to the disk, alone, before it leaves the map, and all of them at Detach.
use eecs.Prelude.{
  ℕ, ◌≡◌, ◌≢◌, refl, sym, ap, ◌∙◌, Bool-cases, none, some, List, inl, inr, ◌==◌, if◌then◌else◌,
  arith,
}
use native.Mathlib.Decide.{ℕ_discrete}
use eecs.Error.{Error, no_error}
use eecs.Double.{Double}
use eecs.Block.{Block}
use eecs.Disk.{Disk}
use eecs.Disk.Blocks.{
  IsDisk, SameShape, SameShape-IsDisk, SameShape-refl, stored, write_block-WritesBlock,
}
use eecs.BlockMap.{find, erase}
use eecs.BlockMap.Laws.{find-erase, erase-IsSorted}
use eecs.Cache.{Cache, write_back, write_erase}
use eecs.Cache.Coherent.{IsCached, IsCoherent, view}

module _ {ℓ} {D : Type ℓ} ⦃d : Double D⦄ where
  -- What a successful write-back of block `k` with the bytes `bytes` does.
  pub record WritesBack (c : Cache D) (k : ℕ) (bytes : List ℕ) (r : Cache D × Error) : Type ℓ where
    pub rc : r.1 ≡ no_error
    pub map : r.0.blockmap ≡ c.blockmap
    pub capacity : r.0.cachesize ≡ c.cachesize
    pub shape : SameShape c.disk r.0.disk
    pub after : (j : ℕ) → stored r.0.disk j ≡ (if k == j then bytes else stored c.disk j)

  -- A clean block is on the disk already.
  same_after :
      (dk : Disk D) (k : ℕ) {bytes : List ℕ}
      → bytes ≡ stored dk k
      → (j : ℕ) → stored dk j ≡ (if k == j then bytes else stored dk j)
  same_after dk k e j = elim (ℕ_discrete k j) [
    | yes p ↦ ground (arith, e, ap (stored dk) p)
    | no p ↦ ground arith
  ]

  pub write_back-WritesBack :
      {c : Cache D} (k : ℕ) (b : Block D)
      → IsDisk c.disk
      → IsCached c.disk k b
      → WritesBack c k b.bytes (write_back c k b)
  unfolding write_back
  write_back-WritesBack {c} k b h q = elim (Bool-cases b.dirty) [
    | inl dirty ↦
        let w = write_block-WritesBlock h k b q.inside q.size in
        simp dirty
          (record { rc = w.rc; map = refl; capacity = refl; shape = w.shape; after = w.after })
    | inr clean ↦ simp clean (record {
      rc = refl;
      map = refl;
      capacity = refl;
      shape = SameShape-refl c.disk;
      after = same_after c.disk k (q.clean clean);
    })
  ]

  -- A block that leaves the map stays in view: the map is smaller by one, and nothing else changes.
  pub record WritesErases (c : Cache D) (k : ℕ) (r : Cache D × Error) : Type ℓ where
    pub rc : r.1 ≡ no_error
    pub coherent : IsCoherent r.0
    pub same : (j : ℕ) → view r.0 j ≡ view c j
    pub shape : SameShape c.disk r.0.disk
    pub map : r.0.blockmap ≡ erase k c.blockmap
    pub capacity : r.0.cachesize ≡ c.cachesize
    pub on_disk : stored r.0.disk k ≡ view c k

  -- Entries of the rest of the map stay cached blocks while block `k` is written.
  pub IsCached-after :
      {c : Cache D} {k : ℕ} {bytes : List ℕ} {r : Cache D × Error} (j : ℕ) (b : Block D)
      → WritesBack c k bytes r
      → k ≢ j
      → IsCached c.disk j b
      → IsCached r.0.disk j b
  IsCached-after j b w ne q = record {
    inside = rw (w.shape.numblocks) q.inside;
    size = q.size ∙ sym w.shape.blocksize;
    clean = λ e. ground (arith, w.after j, q.clean e);
  }

  write_erase_lem :
      (c : Cache D) (k : ℕ) (b : Block D)
      → (write_back c k b).1 ≡ no_error
      → write_erase c k b ≡ (
        record (write_back c k b).0 { blockmap = erase k (write_back c k b).0.blockmap },
        no_error,
      )
  unfolding write_erase
  write_erase_lem c k b e = ground (arith, e)

  module _ {c : Cache D} (k : ℕ) (b : Block D) (h : IsCoherent c)
      (hit : find k c.blockmap ≡ some b) where
    -- The cache after the write-back and the erasure.
    abbrev erased : Cache D
    erased = record (write_back c k b).0 { blockmap = erase k c.blockmap }

    wrote : WritesBack c k b.bytes (write_back c k b)
    wrote = write_back-WritesBack k b h.disk (h.cached k b hit)

    erased_find :
        (j : ℕ) → find j (erase k c.blockmap) ≡ (if k == j then none else find j c.blockmap)
    erased_find j = find-erase k c.blockmap j h.sorted

    erased-IsCached :
        (j : ℕ) (b' : Block D)
        → find j (erase k c.blockmap) ≡ some b'
        → IsCached (write_back c k b).0.disk j b'
    erased-IsCached j b' e =
        IsCached-after j b' wrote (λ p. ground (arith, erased_find j, p))
          (h.cached j b' (ground (arith, erased_find j)))

    erased_view : (j : ℕ) → view erased j ≡ view c j
    unfolding view
    erased_view j = elim (ℕ_discrete k j) [
      | yes p ↦ rw (← p) (ground (arith, erased_find k, wrote.after k, hit))
      | no p ↦ ground (arith, erased_find j, wrote.after j)
    ]

    erased_on_disk : stored erased.disk k ≡ view c k
    unfolding view
    erased_on_disk = ground (arith, wrote.after k, hit)

    -- From a coherent cache a cached block that is flushed or evicted is written to the disk if it
    -- is dirty and leaves the map, with success: the disk then has its bytes in view, every block
    -- stays in view as it was, and the rest of the map is as before.
    pub write_erase-WritesErases : WritesErases c k (write_erase c k b)
    write_erase-WritesErases =
        rw (write_erase_lem c k b wrote.rc, wrote.map)
          (record {
            rc = refl;
            coherent = record {
              disk = SameShape-IsDisk wrote.shape h.disk;
              sorted = erase-IsSorted k c.blockmap h.sorted;
              cached = erased-IsCached;
            };
            same = erased_view;
            shape = wrote.shape;
            map = refl;
            capacity = wrote.capacity;
            on_disk = erased_on_disk;
          })
