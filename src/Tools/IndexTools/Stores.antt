-- ===== src/Tools/IndexTools/Stores.antt =====
-- btree_init and btree_lookup over the files of a disk.
use eecs.Prelude.{ℕ, ◌≡◌, ◌∙◌, refl, sym, false, List, arith}
use eecs.Double.{Double}
use eecs.Outcome.{ok}
use eecs.Text.{atoi}
use eecs.Disk.{Disk}
use eecs.Disk.Blocks.{IsDisk, SameShape, SameShape-IsDisk, SameShape-trans, stored}
use eecs.Disk.Same.{Same, Same-trans}
use eecs.Disk.Init.{Files, close_disk}
use eecs.Disk.Init.Reopen.{IsReady, IsReady-Same, reopened, reopened-IsReady, open_disk-close_disk}
use eecs.Cache
use eecs.Cache.{Cache, init}
use eecs.Cache.Coherent.{view, init-IsCoherent}
use eecs.Cache.Same.{detach-Same}
use eecs.Cache.Detach.{detach-DetachesAll}
use eecs.Node.{Node}
use eecs.Node.Codec.{IsNode}
use eecs.Node.Transfer.{Holds, Keeps, Redraws-Puts, Holds-Keeps, serialize-Puts, unserialize-Keeps}
use eecs.BTree.{Index, new_index, attach, detach}
use eecs.BTree.FreeList.{IsIndex, Chain, Chain-Keeps, Chain-Redraws}
use eecs.BTree.Reopen.{detach_run, attach_run}
use eecs.BTree.Same.{serialize-Same, attach-Same}
use eecs.BTree.Tree.{Tree}
use eecs.BTree.Scans.{Shows, Shows-Keeps, Shows-Redraws}
use eecs.Tools.BufferData.RoundTrip.{left, left-Leaves, attached_lem}
use eecs.Tools.DiskData.RoundTrip.{reopened-SameShape}
use eecs.Tools.IndexTools.{Operation, on_index_of, end_operation, end_index}

module _ {ℓ} {D : Type ℓ} ⦃d : Double D⦄ where
  -- The disk can be closed and opened, and its blocks are an index with the free blocks `free` that
  -- shows the tree.
  pub record Stores (dk : Disk D) (free : List ℕ) (t : Tree) : Type ℓ where
    pub ready : IsReady dk
    pub disk : IsDisk dk
    pub super : Node
    pub fits : IsNode dk.blocksize super
    pub holds : Holds (init dk 1) 0 super
    pub listed : Chain (init dk 1) super.info.freelist free
    pub shown : Shows (init dk 1) super.info.rootnode t

  -- The same of an index that is attached.
  pub record IsAttached (x : Index D) (free : List ℕ) (t : Tree) : Type ℓ where
    pub ready : IsReady x.cache.disk
    pub index : IsIndex x free
    pub holds : Holds x.cache 0 x.superblock
    pub shown : Shows x.cache x.superblock.info.rootnode t

  fresh-Keeps :
      (c : Cache D) (dk : Disk D) (s : ℕ)
      → IsDisk dk
      → SameShape c.disk dk
      → ((j : ℕ) → stored dk j ≡ view c j)
      → Keeps c (init dk s)
  unfolding init
  fresh-Keeps c dk s h shape same =
      let (coherent, shown) = init-IsCoherent dk s h in
      record { coherent = coherent; shape = shape; same = λ j. shown j ∙ same j }

  opened-Keeps : (dk : Disk D) (s : ℕ) → IsDisk dk → Keeps (init dk 1) (init (reopened dk) s)
  unfolding stored init
  opened-Keeps dk s h =
      fresh-Keeps (init dk 1) (reopened dk) s (SameShape-IsDisk (reopened-SameShape dk) h)
        (reopened-SameShape dk) (λ j. sym ((init-IsCoherent dk 1 h).1 j))

  attach-IsAttached :
      {dk : Disk D} {free : List ℕ} {t : Tree} (s : ℕ)
      → Stores dk free t
      → (x : Index D) × (attach 0 false (new_index 0 0 (init (reopened dk) s)) ≡ (ok tt, x))
        × IsAttached x free t
  unfolding new_index init
  attach-IsAttached {dk} {free} {t} s h =
      let k = opened-Keeps dk s h.disk in
      let (c, read, k') =
        unserialize-Keeps 0 h.super k.coherent h.ready.some_block (Holds-Keeps 0 k h.holds) in
      let e = attach_run (new_index 0 0 (init (reopened dk) s)) c h.super read in
      let same = attach-Same false (new_index 0 0 (init (reopened dk) s)) in
      (
        record { cache = c; superblock_index = 0; superblock = h.super },
        e,
        record {
          ready = IsReady-Same (simp e at same) (reopened-IsReady h.ready);
          index = record {
            coherent = k'.coherent;
            index = refl;
            inside = omega (arith, k'.shape.numblocks, h.ready.some_block);
            fits = rw k'.shape.blocksize h.fits;
            listed = Chain-Keeps h.super.info.freelist free k' (Chain-Keeps _ free k h.listed);
          };
          holds = Holds-Keeps 0 k' (Holds-Keeps 0 k h.holds);
          shown = Shows-Keeps h.super.info.rootnode t k' (Shows-Keeps _ t k h.shown);
        },
      )

  -- The end of a program with an index attached: the destructors of the cache and the disk.
  pub detach-Stores :
      {x : Index D} {free : List ℕ} {t : Tree}
      → IsAttached x free t
      → Stores (Cache.detach x.cache).0.disk free t
  detach-Stores {x} {free} {t} h =
      let index = h.index in
      let w = detach-DetachesAll index.coherent in
      let disk = SameShape-IsDisk w.shape index.coherent.disk in
      let k = fresh-Keeps x.cache (Cache.detach x.cache).0.disk 1 disk w.shape w.after in
      record {
        ready = IsReady-Same (detach-Same x.cache) h.ready;
        disk = disk;
        super = x.superblock;
        fits = rw w.shape.blocksize index.fits;
        holds = Holds-Keeps 0 k h.holds;
        listed = Chain-Keeps x.superblock.info.freelist free k index.listed;
        shown = Shows-Keeps x.superblock.info.rootnode t k h.shown;
      }

  -- The end of a tool.
  pub end_index-Stores :
      {x : Index D} {free : List ℕ} {t : Tree} (out : List ℕ) (files : Files)
      → IsAttached x free t
      → (dk : Disk D) × (end_index out files (detach x)
          ≡ ok (record { status = 0; out = out; files = close_disk files.room dk }))
        × Stores dk free t
  end_index-Stores {x} {free} {t} out files h =
      let index = h.index in
      let super = x.superblock in
      let (c, wrote, p) = serialize-Puts 0 super index.coherent index.inside index.fits in
      let drawn = Redraws-Puts h.holds p in
      let ended = detach-DetachesAll p.coherent in
      let l = left-Leaves p.coherent in
      let shape = SameShape-trans p.shape l.shape in
      let k =
        fresh-Keeps c (left c) 1 (SameShape-IsDisk shape index.coherent.disk) l.shape l.after in
      let same : Same x.cache.disk c.disk = rw wrote at (serialize-Same super 0 x.cache) in
      (
        left c,
        rw (detach_run x c index.index wrote, ended.rc) refl,
        record {
          ready = IsReady-Same (Same-trans same l.disk) h.ready;
          disk = SameShape-IsDisk shape index.coherent.disk;
          super = super;
          fits = rw shape.blocksize index.fits;
          holds = Holds-Keeps 0 k p.holds;
          listed = Chain-Keeps super.info.freelist free k (Chain-Redraws _ free drawn index.listed);
          shown = Shows-Keeps super.info.rootnode t k (Shows-Redraws _ t drawn h.shown);
        },
      )

  pub IsAttached-Keeps :
      {x x' : Index D} {free : List ℕ} {t : Tree}
      → IsAttached x free t
      → Keeps x.cache x'.cache
      → Same x.cache.disk x'.cache.disk
      → x'.superblock_index ≡ x.superblock_index
      → x'.superblock ≡ x.superblock
      → IsAttached x' free t
  IsAttached-Keeps {x} {x'} {free} {t} h k same index super = record {
    ready = IsReady-Same same h.ready;
    index = record {
      coherent = k.coherent;
      index = index ∙ h.index.index;
      inside = omega (arith, k.shape.numblocks, h.index.inside);
      fits = simp (super, k.shape.blocksize) h.index.fits;
      listed = simp super (Chain-Keeps x.superblock.info.freelist free k h.index.listed);
    };
    holds = simp super (Holds-Keeps 0 k h.holds);
    shown = simp super (Shows-Keeps x.superblock.info.rootnode t k h.shown);
  }

  -- What an operation on an attached index does to its tool.
  pub operate_lem :
      {dk : Disk D} {free : List ℕ} {t : Tree} (room : ℕ) (filestem cachesize : List ℕ)
      (f : Operation D) (out : List ℕ)
      → Stores dk free t
      → ((x : Index D)
          → IsAttached x free t
          → (x' : Index D) × (end_operation (close_disk room dk) (f x)
              ≡ end_index out (close_disk room dk) (detach x'))
            × IsAttached x' free t)
      → (dk' : Disk D) × (on_index_of false 0 0 f filestem cachesize (close_disk room dk)
          ≡ ok (record { status = 0; out = out; files = close_disk (close_disk room dk).room dk' }))
        × Stores dk' free t
  unfolding on_index_of
  operate_lem {dk} room filestem cachesize f out h operation =
      let (x, e, attached_index) = attach-IsAttached (atoi cachesize) h in
      let (x', done, kept) = operation x attached_index in
      let (dk', ended, stores) = end_index-Stores out (close_disk room dk) kept in
      (
        dk',
        rw
            (
              open_disk-close_disk dk room filestem h.ready,
              attached_lem (reopened dk) (atoi cachesize),
              e,
            )
            (done ∙ ended),
        stores,
      )
