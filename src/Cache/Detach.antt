-- ===== src/Cache/Detach.antt =====
-- BufferCache::Detach of btree_lab/buffercache.cc, which writes out every dirty block.
use eecs.Prelude.{ℕ, ◌≡◌, refl, some, List, [], ◌∷◌, arith}
use eecs.Error.{Error, no_error}
use eecs.Double.{Double}
use eecs.Block.{Block}
use eecs.Disk.Blocks.{IsDisk, SameShape, SameShape-IsDisk, stored}
use eecs.BlockMap.{find, IsSorted}
use eecs.BlockMap.Laws.{find_below, Above-IsSorted, tail_found}
use eecs.Cache.{Cache, write_back, detach_loop, detach}
use eecs.Cache.Coherent.{IsCached, IsCoherent, over, view}
use eecs.Cache.WriteBack.{write_back-WritesBack, IsCached-after}
use eecs.Disk.Blocks.{SameShape-refl, SameShape-trans}

module _ {ℓ} {D : Type ℓ} ⦃d : Double D⦄ where
  -- The blocks of `m` are on the disk, and its other blocks are as before.
  pub record Detaches (m : List (ℕ × Block D)) (c : Cache D) (r : Cache D × Error) : Type ℓ where
    pub rc : r.1 ≡ no_error
    pub shape : SameShape c.disk r.0.disk
    pub after : (j : ℕ) → stored r.0.disk j ≡ over (find j m) (stored c.disk j)

  detach_loop_step :
      (k : ℕ) (b : Block D) (m : List (ℕ × Block D)) (c : Cache D)
      → (write_back c k b).1 ≡ no_error
      → detach_loop ((k, b) ∷ m) c ≡ detach_loop m (write_back c k b).0
  unfolding detach_loop
  detach_loop_step k b m c e = ground (arith, e)

  detach_loop-Detaches :
      (m : List (ℕ × Block D)) (c : Cache D)
      → IsDisk c.disk
      → IsSorted m
      → ((k : ℕ) (b : Block D) → find k m ≡ some b → IsCached c.disk k b)
      → Detaches m c (detach_loop m c)
  unfolding find
  detach_loop-Detaches [] c h s cached =
      unfold detach_loop in record { rc = refl; shape = SameShape-refl c.disk; after = λ j. refl }
  detach_loop-Detaches ((k, b) ∷ m) c h s cached =
      let w = write_back-WritesBack k b h (cached k b (ground arith)) in
      let rest =
        detach_loop-Detaches m (write_back c k b).0 (SameShape-IsDisk w.shape h)
          (Above-IsSorted k m s)
          (λ j b' e.
            let (ne, found) = tail_found k b m j s e in
            IsCached-after j b' w ne (cached j b' found)) in
      rw (detach_loop_step k b m c w.rc) (record {
        rc = rest.rc;
        shape = SameShape-trans w.shape rest.shape;
        after = λ j. ground (arith, rest.after j, w.after j, find_below k k m s);
      })

  pub record DetachesAll (c : Cache D) (r : Cache D × Error) : Type ℓ where
    pub rc : r.1 ≡ no_error
    pub coherent : IsCoherent r.0
    pub emptied : r.0.blockmap ≡ []
    pub shape : SameShape c.disk r.0.disk
    pub after : (j : ℕ) → stored r.0.disk j ≡ view c j
    pub same : (j : ℕ) → view r.0 j ≡ view c j

  detach_step :
      (c : Cache D)
      → (detach_loop c.blockmap c).1 ≡ no_error
      → detach c ≡ (record (detach_loop c.blockmap c).0 { blockmap = [] }, no_error)
  unfolding detach
  detach_step c e = ground (arith, e)

  -- Detaching a coherent cache succeeds, empties it, and leaves on the disk what was in view.
  pub detach-DetachesAll : {c : Cache D} → IsCoherent c → DetachesAll c (detach c)
  unfolding view find
  detach-DetachesAll {c} h =
      let all = detach_loop-Detaches c.blockmap c h.disk h.sorted h.cached in
      rw (detach_step c all.rc) (record {
        rc = refl;
        coherent = record {
          disk = SameShape-IsDisk all.shape h.disk;
          sorted = tt;
          cached = λ k b e. cc;
        };
        emptied = refl;
        shape = all.shape;
        after = all.after;
        same = all.after;
      })
