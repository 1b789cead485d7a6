-- ===== src/BTree/Allocate.antt =====
-- AllocateNode and DeallocateNode of btree_lab/btree.cc take blocks from the front of the free list
-- and put them back there.
use eecs.Prelude.{ℕ, ◌<◌, ◌≡◌, ◌≢◌, refl, ◌∙◌, false, inr, none, List, [], ◌∷◌, ◌==◌, arith}
use eecs.Prelude.Words.{IsWord}
use eecs.Error.{nospace}
use eecs.Double.{Double}
use eecs.Disk.Blocks.{SameShape}
use eecs.Cache.{Cache, notify_allocate_block, notify_deallocate_block}
use eecs.Cache.Coherent.{IsCoherent, view}
use eecs.Disk.Blocks.{SameShape-trans}
use eecs.Outcome.{ok, err}
use eecs.Node.{Node, unallocated_block, serialize, unserialize, encode_node}
use eecs.Node.Codec.{IsNode}
use eecs.Node.Transfer.{Holds, Keeps, Puts, Holds-Keeps, unserialize-Keeps, serialize-Puts}
use eecs.BTree.{Index, set_freelist, set_nodetype, allocate_node, deallocate_node}
use eecs.BTree.FreeList.{
  NotIn, Chain, IsIndex, Chain-NotIn, Chain-Keeps, Chain-Puts, Chain-IsWord, set_freelist-IsNode,
  notify-Keeps,
}

-- The node that DeallocateNode writes to the block that it frees, and what it reads as: a node of
-- this type has no data in its block.
abbrev freed : Node → Node → Node
freed sb b = set_freelist sb.info.freelist (set_nodetype unallocated_block b)

abbrev bare : Node → Node → Node
bare sb b = record (freed sb b) { bytes = none }

bare-IsNode :
    {size : ℕ} {b : Node} (sb : Node)
    → IsWord sb.info.freelist
    → IsNode size b
    → IsNode size (bare sb b)
bare-IsNode sb word h = record {
  info = record {
    nodetype = omega arith;
    keysize = h.info.keysize;
    valuesize = h.info.valuesize;
    blocksize = h.info.blocksize;
    rootnode = h.info.rootnode;
    freelist = word;
    numkeys = h.info.numkeys;
  };
  blocksize = h.blocksize;
  room = h.room;
  held = inr (refl, refl);
}

module _ {ℓ} {D : Type ℓ} ⦃d : Double D⦄ where
  -- An index whose free list has become `free`, with its superblock written to block 0 and all
  -- blocks but that and those excepted as before.
  pub record Relisted (x : Index D) (free : List ℕ) (Except : ℕ → Type 0) (x' : Index D)
      : Type ℓ where
    pub index : IsIndex x' free
    pub shape : SameShape x.cache.disk x'.cache.disk
    pub saved : Holds x'.cache 0 x'.superblock
    pub same : (j : ℕ) → j ≢ 0 → ¬ Except j → view x'.cache j ≡ view x.cache j

  abbrev pub Allocated : Index D → List ℕ → Type ℓ
  Allocated x [] = allocate_node x ≡ (err nospace, x)
  Allocated x (n ∷ rest) =
      (x' : Index D) × (allocate_node x ≡ (ok n, x')) × Relisted x rest (λ _. ⊥) x'

  -- The superblock, with the front `p` of its free list, goes to block 0 of the cache `c`, which
  -- has the free blocks `free` from `p` on; then the disk is notified of a block.
  save-Relisted :
      {x : Index D} {c c2 c3 : Cache D} (p : ℕ) (free : List ℕ) (Except : ℕ → Type 0)
      → x.superblock_index ≡ 0
      → SameShape x.cache.disk c.disk
      → IsCoherent c
      → Chain c p free
      → IsNode x.cache.disk.blocksize x.superblock
      → 0 < x.cache.disk.numblocks
      → ((j : ℕ) → j ≢ 0 → ¬ Except j → view c j ≡ view x.cache j)
      → Puts c 0 (set_freelist p x.superblock) c2
      → Keeps c2 c3
      → Relisted x free Except (record {
        cache = c3;
        superblock_index = x.superblock_index;
        superblock = set_freelist p x.superblock;
      })
  save-Relisted {x} {c} {c2} {c3} p free Except index shape h listed fits inside same w k =
      let whole = SameShape-trans shape (SameShape-trans w.shape k.shape) in
      record {
        index = record {
          coherent = k.coherent;
          index = index;
          inside = rw whole.numblocks inside;
          fits = rw whole.blocksize (set_freelist-IsNode p (Chain-IsWord p free h listed) fits);
          listed = Chain-Keeps p free k (Chain-Puts p free w (Chain-NotIn c p free listed) listed);
        };
        shape = whole;
        saved = Holds-Keeps 0 k w.holds;
        same = λ j ne no. k.same j ∙ w.same j ne ∙ same j ne no;
      }

  -- The superblock with a new front of the free list still fits block 0.
  save-Puts :
      (x : Index D) {c : Cache D} (p : ℕ) (free : List ℕ)
      → SameShape x.cache.disk c.disk
      → IsCoherent c
      → Chain c p free
      → IsNode x.cache.disk.blocksize x.superblock
      → 0 < x.cache.disk.numblocks
      → (c' : Cache D) × (serialize (set_freelist p x.superblock) 0 c ≡ (ok tt, c'))
        × Puts c 0 (set_freelist p x.superblock) c'
  save-Puts x p free shape h listed fits inside =
      serialize-Puts 0 _ h (rw shape.numblocks inside)
        (rw shape.blocksize (set_freelist-IsNode p (Chain-IsWord p free h listed) fits))

  -- The calls of AllocateNode, one after the other.
  allocate_run :
      (x : Index D) {c1 c2 : Cache D} (n : ℕ) (b : Node)
      → x.superblock.info.freelist ≡ n
      → n ≢ 0
      → unserialize n x.cache ≡ (ok b, c1)
      → b.info.nodetype ≡ unallocated_block
      → x.superblock_index ≡ 0
      → serialize (set_freelist b.info.freelist x.superblock) 0 c1 ≡ (ok tt, c2)
      → allocate_node x ≡ (
        ok n,
        record {
          cache = (notify_allocate_block c2 n).0;
          superblock_index = x.superblock_index;
          superblock = set_freelist b.info.freelist x.superblock;
        },
      )
  unfolding allocate_node
  allocate_run x n b front nonzero read type index written =
      let some_left : (n == 0) ≡ false = ground (arith, nonzero) in
      rw (front, some_left, read) (rw (type, index, written) refl)

  allocate_from :
      {x : Index D} (n : ℕ) (rest : List ℕ) (b : Node)
      → IsIndex x (n ∷ rest)
      → x.superblock.info.freelist ≡ n
      → n ≢ 0
      → n < x.cache.disk.numblocks
      → Holds x.cache n b
      → b.info.nodetype ≡ unallocated_block
      → Chain x.cache b.info.freelist rest
      → Allocated x (n ∷ rest)
  allocate_from {x} n rest b h front nonzero inside holds type listed =
      let (c1, read, k1) = unserialize-Keeps n b h.coherent inside holds in
      let listed1 = Chain-Keeps b.info.freelist rest k1 listed in
      let (c2, written, p2) =
        save-Puts x b.info.freelist rest k1.shape k1.coherent listed1 h.fits h.inside in
      let k3 =
        (notify-Keeps n p2.coherent (omega (arith, p2.shape.numblocks, k1.shape.numblocks))).0 in
      (
        _,
        allocate_run x n b front nonzero read type h.index written,
        save-Relisted b.info.freelist rest (λ _. ⊥) h.index k1.shape k1.coherent listed1 h.fits
            h.inside (λ j ne no. k1.same j) p2 k3,
      )

  -- AllocateNode of an index with an empty free list returns ERROR_NOSPACE and changes nothing;
  -- with block `n` at its front it returns `n`, the free list is the rest of it, in memory and in
  -- the superblock's block, and no other block has changed.
  pub allocate_node_lem : {x : Index D} (free : List ℕ) → IsIndex x free → Allocated x free
  unfolding allocate_node Chain
  allocate_node_lem {x} [] h = rw h.listed refl
  allocate_node_lem {x} (n ∷ rest) h =
      let (front, nonzero, inside, b, holds, type, listed) = h.listed in
      allocate_from n rest b h front nonzero inside holds type listed

  deallocate_run :
      (x : Index D) {c1 c2 c3 : Cache D} (n : ℕ) (b : Node)
      → unserialize n x.cache ≡ (ok b, c1)
      → b.info.nodetype ≢ unallocated_block
      → x.superblock_index ≡ 0
      → serialize (freed x.superblock b) n c1 ≡ (ok tt, c2)
      → serialize (set_freelist n x.superblock) 0 c2 ≡ (ok tt, c3)
      → deallocate_node n x ≡ (
        ok tt,
        record {
          cache = (notify_deallocate_block c3 n).0;
          superblock_index = x.superblock_index;
          superblock = set_freelist n x.superblock;
        },
      )
  unfolding deallocate_node
  deallocate_run x n b read type index emptied written =
      let taken : (b.info.nodetype == unallocated_block) ≡ false = ground (arith, type) in
      rw read (rw taken (rw emptied (rw (index, written) refl)))

  serialize-freed :
      (sb b : Node) (k : ℕ) (c : Cache D) → serialize (freed sb b) k c ≡ serialize (bare sb b) k c
  unfolding serialize encode_node
  serialize-freed sb b k c = refl

  -- DeallocateNode of a block other than the superblock's, outside the free list, that holds a node
  -- of another type than a free one puts it at the front of the free list, in memory and in the
  -- superblock's block; no block but those two has changed.
  pub deallocate_node_lem :
      {x : Index D} (n : ℕ) (free : List ℕ) (b : Node)
      → IsIndex x free
      → n ≢ 0
      → n < x.cache.disk.numblocks
      → NotIn n free
      → Holds x.cache n b
      → IsNode x.cache.disk.blocksize b
      → b.info.nodetype ≢ unallocated_block
      → (x' : Index D) × (deallocate_node n x ≡ (ok tt, x')) × Relisted x (n ∷ free) (λ j. j ≡ n) x'
  unfolding Chain
  deallocate_node_lem {x} n free b h nonzero inside apart holds node type =
      let word = Chain-IsWord x.superblock.info.freelist free h.coherent h.listed in
      let (c1, read, k1) = unserialize-Keeps n b h.coherent inside holds in
      let listed1 = Chain-Keeps x.superblock.info.freelist free k1 h.listed in
      let inside1 : n < c1.disk.numblocks = omega (arith, k1.shape.numblocks) in
      let (c2, emptied, p2) =
        serialize-Puts n (bare x.superblock b) k1.coherent inside1
          (rw k1.shape.blocksize (bare-IsNode x.superblock word node)) in
      let inside2 : n < c2.disk.numblocks = omega (arith, p2.shape.numblocks) in
      let listed2 : Chain c2 n (n ∷ free) = (
        refl,
        nonzero,
        inside2,
        bare x.superblock b,
        p2.holds,
        refl,
        Chain-Puts x.superblock.info.freelist free p2 apart listed1,
      ) in
      let shape2 = SameShape-trans k1.shape p2.shape in
      let (c3, written, p3) = save-Puts x n (n ∷ free) shape2 p2.coherent listed2 h.fits h.inside in
      let k4 = (notify-Keeps n p3.coherent (omega (arith, p3.shape.numblocks))).1 in
      (
        _,
        deallocate_run x n b read type h.index (serialize-freed x.superblock b n c1 ∙ emptied)
            written,
        save-Relisted n (n ∷ free) (λ j. j ≡ n) h.index shape2 p2.coherent listed2 h.fits h.inside
            (λ j ne other. p2.same j other ∙ k1.same j) p3 k4,
      )
