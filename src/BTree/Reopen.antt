-- ===== src/BTree/Reopen.antt =====
-- Detach of btree_lab/btree.cc, and Attach of an index that exists.
use eecs.Prelude.{ℕ, ◌≡◌, ◌≢◌, refl, ◌∙◌, false, List, arith}
use eecs.Double.{Double}
use eecs.Cache.{Cache}
use eecs.Cache.Coherent.{view}
use eecs.Disk.Blocks.{SameShape-trans}
use eecs.Outcome.{ok}
use eecs.Node.{Node, serialize, unserialize}
use eecs.Node.Transfer.{unserialize-Keeps, serialize-Puts}
use eecs.BTree.{Index, attach, detach}
use eecs.BTree.FreeList.{IsIndex, Chain-NotIn, Chain-Keeps, Chain-Puts}

module _ {ℓ} {D : Type ℓ} ⦃d : Double D⦄ where
  pub detach_run :
      (x : Index D) (c : Cache D)
      → x.superblock_index ≡ 0
      → serialize x.superblock 0 x.cache ≡ (ok tt, c)
      → detach x ≡ (ok tt, record x { cache = c })
  unfolding detach
  detach_run x c index written = rw (index, written) refl

  pub attach_run :
      (y : Index D) (c : Cache D) (b : Node)
      → unserialize 0 y.cache ≡ (ok b, c)
      → attach 0 false y ≡ (ok tt, record { cache = c; superblock_index = 0; superblock = b })
  unfolding attach
  attach_run y c b read = rw read refl

  -- Detach of an index succeeds, and Attach of any index object over the cache that it leaves
  -- succeeds and has the superblock and the free list of the index detached; no block but the
  -- superblock's has changed.
  pub attach-detach :
      {x : Index D} (free : List ℕ) (y : Node) (index : ℕ)
      → IsIndex x free
      → (x1 : Index D) × (x2 : Index D) × (detach x ≡ (ok tt, x1))
        × (attach 0 false (record { cache = x1.cache; superblock_index = index; superblock = y })
            ≡ (ok tt, x2))
        × (x2.superblock ≡ x.superblock)
        × IsIndex x2 free
        × ((j : ℕ) → j ≢ 0 → view x2.cache j ≡ view x.cache j)
  attach-detach {x} free y index h =
      let (c1, written, p) = serialize-Puts 0 x.superblock h.coherent h.inside h.fits in
      let (c2, read, k) =
        unserialize-Keeps 0 x.superblock p.coherent (omega (arith, p.shape.numblocks, h.inside))
          p.holds in
      let shape = SameShape-trans p.shape k.shape in
      let front = x.superblock.info.freelist in
      (
        record x { cache = c1 },
        record { cache = c2; superblock_index = 0; superblock = x.superblock },
        detach_run x c1 h.index written,
        attach_run _ c2 x.superblock read,
        refl,
        record {
          coherent = k.coherent;
          index = refl;
          inside = omega (arith, shape.numblocks, h.inside);
          fits = rw shape.blocksize h.fits;
          listed =
              Chain-Keeps front free k
                (Chain-Puts front free p (Chain-NotIn x.cache front free h.listed) h.listed);
        },
        λ j ne. k.same j ∙ p.same j ne,
      )
