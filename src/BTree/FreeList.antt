-- ===== src/BTree/FreeList.antt =====
-- The free blocks of an index of btree_lab/btree.cc: a list through the blocks, from the superblock.
use eecs.Prelude.{ℕ, ◌<◌, ◌≡◌, ◌≢◌, refl, List, [], ◌∷◌, arith}
use eecs.Prelude.Words.{IsWord}
use eecs.Double.{Double}
use eecs.Cache
use eecs.Cache.{Cache}
use eecs.Cache.Coherent.{IsCoherent, view}
use eecs.Cache.Refine.{notify-Simulates}
use eecs.Node.{Node, unallocated_block}
use eecs.Node.Codec.{IsNode}
use eecs.Node.Transfer.{Holds, Keeps, Puts, Redraws, Redraws-Keeps, Holds-Puts}
use eecs.BTree.{Index, set_freelist}

abbrev pub NotIn : ℕ → List ℕ → Type 0
NotIn k [] = Unit
NotIn k (q ∷ qs) = (q ≢ k) × NotIn k qs

module _ {ℓ} {D : Type ℓ} where
  -- The free nodes from block `p` on are `qs`: each names the next, and the last one names block 0.
  unfoldable pub Chain : Cache D → ℕ → List ℕ → Type 0
  Chain c p [] = p ≡ 0
  Chain c p (q ∷ qs) =
      (p ≡ q)
      × (q ≢ 0)
      × (q < c.disk.numblocks)
      × (b : Node) × Holds c q b
      × (b.info.nodetype ≡ unallocated_block)
      × Chain c b.info.freelist qs

  -- An index with its superblock in block 0 and the free blocks `free`.
  pub record IsIndex (x : Index D) (free : List ℕ) : Type ℓ where
    pub coherent : IsCoherent x.cache
    pub index : x.superblock_index ≡ 0
    pub inside : 0 < x.cache.disk.numblocks
    pub fits : IsNode x.cache.disk.blocksize x.superblock
    pub listed : Chain x.cache x.superblock.info.freelist free

  pub Chain-NotIn : (c : Cache D) (p : ℕ) (qs : List ℕ) → Chain c p qs → NotIn 0 qs
  unfolding Chain
  Chain-NotIn c p [] h = tt
  Chain-NotIn c p (q ∷ qs) (e, ne, inside, b, holds, type, rest) =
      (ne, Chain-NotIn c b.info.freelist qs rest)

  pub Chain-Redraws :
      {c c' : Cache D} (p : ℕ) (qs : List ℕ) → Redraws c c' → Chain c p qs → Chain c' p qs
  unfolding Chain
  Chain-Redraws p [] w h = h
  Chain-Redraws p (q ∷ qs) w (e, ne, inside, b, holds, type, rest) = (
    e,
    ne,
    rw w.shape.numblocks inside,
    b,
    w.redrawn q b holds,
    type,
    Chain-Redraws b.info.freelist qs w rest,
  )

  pub Chain-Keeps :
      {c c' : Cache D} (p : ℕ) (qs : List ℕ) → Keeps c c' → Chain c p qs → Chain c' p qs
  Chain-Keeps p qs w h = Chain-Redraws p qs (Redraws-Keeps w) h

  pub Chain-Puts :
      {c c' : Cache D} {k : ℕ} {a : Node} (p : ℕ) (qs : List ℕ)
      → Puts c k a c'
      → NotIn k qs
      → Chain c p qs
      → Chain c' p qs
  unfolding Chain
  Chain-Puts p [] w not_in h = h
  Chain-Puts p (q ∷ qs) w not_in (e, ne, inside, b, holds, type, rest) = (
    e,
    ne,
    rw w.shape.numblocks inside,
    b,
    Holds-Puts q w not_in.0 holds,
    type,
    Chain-Puts b.info.freelist qs w not_in.1 rest,
  )

pub set_freelist-IsNode :
    {size : ℕ} {b : Node} (n : ℕ) → IsWord n → IsNode size b → IsNode size (set_freelist n b)
set_freelist-IsNode n word h = record {
  info = record {
    nodetype = h.info.nodetype;
    keysize = h.info.keysize;
    valuesize = h.info.valuesize;
    blocksize = h.info.blocksize;
    rootnode = h.info.rootnode;
    freelist = word;
    numkeys = h.info.numkeys;
  };
  blocksize = h.blocksize;
  room = h.room;
  held = h.held;
}

module _ {ℓ} {D : Type ℓ} ⦃d : Double D⦄ where
  pub Chain-IsWord : {c : Cache D} (p : ℕ) (qs : List ℕ) → IsCoherent c → Chain c p qs → IsWord p
  unfolding Chain
  Chain-IsWord p [] h listed = omega arith
  Chain-IsWord p (q ∷ qs) h (e, ne, inside, b, holds, type, rest) = omega (arith, h.disk.numbered)

  -- A notification of the disk changes no block.
  pub notify-Keeps :
      {c : Cache D} (k : ℕ)
      → IsCoherent c
      → k < c.disk.numblocks
      → Keeps c (Cache.notify_allocate_block c k).0 × Keeps c (Cache.notify_deallocate_block c k).0
  notify-Keeps {c} k h inside =
      let (a, b) = notify-Simulates (view c) k h inside (λ j. refl) in
      (
        record { coherent = a.coherent; shape = a.shape; same = a.view },
        record { coherent = b.coherent; shape = b.shape; same = b.view },
      )
