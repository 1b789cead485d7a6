-- ===== src/BTree/Attach.antt =====
-- Attach of btree_lab/btree.cc, where it makes a new index: the superblock, an empty root, and the
-- rest of the disk in the free list.
use eecs.Prelude.{ℕ, zero, suc, ◌-◌, ◌≤◌, ◌<◌, ◌≡◌, refl, sym, ◌∙◌, true, List, arith}
use eecs.Prelude.Words.{IsWord}
use eecs.Double.{Double}
use eecs.Disk.Blocks.{SameShape}
use eecs.Cache.{Cache, notify_allocate_block}
use eecs.Cache.Coherent.{IsCoherent}
use eecs.Disk.Blocks.{SameShape-trans}
use eecs.Outcome.{ok}
use eecs.Node.{Node, metadata_size, superblock, root_node, make, serialize, unserialize}
use eecs.Node.Codec.{IsNode}
use eecs.Node.Transfer.{
  Holds, Puts, Holds-same, Holds-Keeps, Holds-Puts, unserialize-Keeps, serialize-Puts,
}
use eecs.BTree.{Index, write_free_nodes, create_index, attach}
use eecs.BTree.FreeList.{Chain, IsIndex, Chain-Keeps, notify-Keeps}
use eecs.BTree.Tree.{bare}
use eecs.BTree.Scans.{Shows}
use eecs.BTree.FreeNodes.{
  linked, bare-IsNode, root-IsNode, range, front, below, blocksize-IsWord, Chain-at,
  write_free_nodes_lem,
}

abbrev new_superblock : ℕ → ℕ → ℕ → Node
new_superblock keysize valuesize size = linked superblock keysize valuesize size 1 2

abbrev new_root : ℕ → ℕ → ℕ → Node
new_root keysize valuesize size = linked root_node keysize valuesize size 1 2

-- All blocks but the first two, in order.
abbrev pub rest_of_disk : ℕ → List ℕ
rest_of_disk numblocks = range 2 (numblocks - 2)

front_lem : (n : ℕ) → 1 ≤ n → front 2 n ≡ 2
front_lem zero h = absurd (omega arith)
front_lem (suc n) h = refl

module _ {ℓ} {D : Type ℓ} where
  listed_lem :
      (c : Cache D) (m n : ℕ)
      → m ≡ n
      → 3 ≤ n
      → Chain c (front 2 (m - 2)) (range 2 (m - 2))
      → Chain c 2 (rest_of_disk n)
  listed_lem c m n e h listed = rw (← e) (
      Chain-at c 2 (front 2 (m - 2)) (range 2 (m - 2)) (sym (front_lem (m - 2) (omega arith)))
        listed)

module _ {ℓ} {D : Type ℓ} ⦃d : Double D⦄ {keysize valuesize : ℕ} (key_word : IsWord keysize)
    (value_word : IsWord valuesize) where
  -- A node goes to a block that the disk is first notified of.
  new_node-Puts :
      (c : Cache D) (k : ℕ) (b : Node)
      → IsCoherent c
      → k < c.disk.numblocks
      → IsNode c.disk.blocksize b
      → (c' : Cache D) × (serialize b k (notify_allocate_block c k).0 ≡ (ok tt, c')) × Puts c k b c'
  new_node-Puts c k b h inside node =
      let n = (notify-Keeps k h inside).0 in
      let (c', written, p) =
        serialize-Puts k b n.coherent (omega (arith, n.shape.numblocks))
          (rw n.shape.blocksize node) in
      (
        c',
        written,
        record {
          coherent = p.coherent;
          shape = SameShape-trans n.shape p.shape;
          holds = p.holds;
          same = λ j ne. p.same j ne ∙ n.same j;
        },
      )

  -- The blocks of a new index.
  record Created (c c' : Cache D) : Type ℓ where
    pub coherent : IsCoherent c'
    pub shape : SameShape c.disk c'.disk
    pub super : Holds c' 0 (new_superblock keysize valuesize c.disk.blocksize)
    pub root : Holds c' 1 (new_root keysize valuesize c.disk.blocksize)
    pub listed : Chain c' 2 (rest_of_disk c.disk.numblocks)

  create_run :
      (c c2 c4 c5 : Cache D)
      → serialize
          (new_superblock keysize valuesize c.disk.blocksize)
          0
          (notify_allocate_block c 0).0
        ≡ (ok tt, c2)
      → serialize (new_root keysize valuesize c.disk.blocksize) 1 (notify_allocate_block c2 1).0
        ≡ (ok tt, c4)
      → write_free_nodes (c4.disk.numblocks - 2) 2 keysize valuesize c4 ≡ (ok tt, c5)
      → create_index keysize valuesize c ≡ (ok tt, c5)
  unfolding create_index
  create_run c c2 c4 c5 super root free = rw super (rw root free)

  create_index-Created :
      {c : Cache D}
      → IsCoherent c
      → metadata_size ≤ c.disk.blocksize
      → 3 ≤ c.disk.numblocks
      → (c' : Cache D) × (create_index keysize valuesize c ≡ (ok tt, c')) × Created c c'
  create_index-Created {c} h room count =
      let size = c.disk.blocksize in
      let word = blocksize-IsWord h.disk (omega arith) in
      let super_node : IsNode size (new_superblock keysize valuesize size) =
        bare-IsNode key_word value_word word room 1 2 (omega arith) (omega arith) superblock
          (omega arith) refl in
      let root_node : IsNode size (new_root keysize valuesize size) =
        root-IsNode key_word value_word word room 1 2 (omega arith) (omega arith) in
      let (c2, super, p2) =
        new_node-Puts c 0 (new_superblock keysize valuesize size) h (omega arith) super_node in
      let (c4, root, p4) =
        new_node-Puts c2 1 (new_root keysize valuesize size) p2.coherent
          (omega (arith, p2.shape.numblocks)) (rw p2.shape.blocksize root_node) in
      let shape4 = SameShape-trans {a = c.disk} {b = c2.disk} {c = c4.disk} p2.shape p4.shape in
      let (c5, free, w) =
        write_free_nodes_lem key_word value_word (c4.disk.numblocks - 2) 2 {c = c4} p4.coherent
          (rw shape4.blocksize room) (omega (arith, shape4.numblocks)) (omega arith) in
      (
        c5,
        create_run c c2 c4 c5 super root free,
        record {
          coherent = w.coherent;
          shape = SameShape-trans {a = c.disk} {b = c4.disk} {c = c5.disk} shape4 w.shape;
          super =
              Holds-same c4 c5 0 w.shape (w.same 0 (omega arith))
                (Holds-Puts {c = c2} {c' = c4} 0 p4 (below 0 1 (omega arith)) p2.holds);
          root = Holds-same c4 c5 1 w.shape (w.same 1 (omega arith)) p4.holds;
          listed = listed_lem c5 c4.disk.numblocks c.disk.numblocks shape4.numblocks count w.listed;
        },
      )

module _ {ℓ} {D : Type ℓ} ⦃d : Double D⦄ where
  attach_run :
      (x : Index D) (c1 c2 : Cache D) (b : Node)
      → create_index x.superblock.info.keysize x.superblock.info.valuesize x.cache ≡ (ok tt, c1)
      → unserialize 0 c1 ≡ (ok b, c2)
      → attach 0 true x ≡ (ok tt, record { cache = c2; superblock_index = 0; superblock = b })
  unfolding attach
  attach_run x c1 c2 b made read = rw made (rw read refl)

  bare_lem :
      (c : Cache D) (keysize valuesize size : ℕ)
      → 1 < c.disk.numblocks
      → Holds c 1 (new_root keysize valuesize size)
      → Shows c 1 bare
  unfolding Shows make
  bare_lem c keysize valuesize size inside holds =
      (inside, new_root keysize valuesize size, holds, refl, refl)

  -- Attach that makes a new index, with what block 0 shows.
  pub attach_lem :
      (x : Index D)
      → IsCoherent x.cache
      → IsWord x.superblock.info.keysize
      → IsWord x.superblock.info.valuesize
      → metadata_size ≤ x.cache.disk.blocksize
      → 3 ≤ x.cache.disk.numblocks
      → (x' : Index D) × (attach 0 true x ≡ (ok tt, x'))
        × IsIndex x' (rest_of_disk x.cache.disk.numblocks)
        × (x'.superblock.info.rootnode ≡ 1)
        × Shows x'.cache 1 bare
        × SameShape x.cache.disk x'.cache.disk
        × Holds x'.cache 0 x'.superblock
  attach_lem x h key_word value_word room count =
      let (c1, made, w) = create_index-Created key_word value_word h room count in
      let keysize = x.superblock.info.keysize in
      let valuesize = x.superblock.info.valuesize in
      let size = x.cache.disk.blocksize in
      let (c2, read, k) =
        unserialize-Keeps 0 (new_superblock keysize valuesize size) w.coherent
          (omega (arith, w.shape.numblocks)) w.super in
      let shape = SameShape-trans w.shape k.shape in
      let word = blocksize-IsWord h.disk (omega arith) in
      (
        _,
        attach_run x c1 c2 (new_superblock keysize valuesize size) made read,
        record {
          coherent = k.coherent;
          index = refl;
          inside = omega (arith, shape.numblocks);
          fits = rw shape.blocksize (
              bare-IsNode key_word value_word word room 1 2 (omega arith) (omega arith) superblock
                (omega arith) refl);
          listed = Chain-Keeps 2 (rest_of_disk x.cache.disk.numblocks) k w.listed;
        },
        refl,
        bare_lem c2 keysize valuesize size (omega (arith, shape.numblocks))
            (Holds-Keeps 1 k w.root),
        shape,
        Holds-Keeps 0 k w.super,
      )

  -- Attach that makes a new index over a coherent cache, with word-sized key and value sizes, on a
  -- disk of at least 3 blocks that each have room for the metadata, succeeds: the superblock is in
  -- block 0 and names block 1 as the root, which shows a tree with no keys, the free list is the
  -- rest of the disk in order, and the disk keeps its shape.
  pub attach-IsIndex :
      (x : Index D)
      → IsCoherent x.cache
      → IsWord x.superblock.info.keysize
      → IsWord x.superblock.info.valuesize
      → metadata_size ≤ x.cache.disk.blocksize
      → 3 ≤ x.cache.disk.numblocks
      → (x' : Index D) × (attach 0 true x ≡ (ok tt, x'))
        × IsIndex x' (rest_of_disk x.cache.disk.numblocks)
        × (x'.superblock.info.rootnode ≡ 1)
        × Shows x'.cache 1 bare
        × SameShape x.cache.disk x'.cache.disk
  attach-IsIndex x h key_word value_word room count =
      let (x', e, index, root, shown, shape, holds) =
        attach_lem x h key_word value_word room count in
      (x', e, index, root, shown, shape)
