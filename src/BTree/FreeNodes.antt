-- ===== src/BTree/FreeNodes.antt =====
-- The nodes that Attach of btree_lab/btree.cc writes to a new index, and its loop over the rest of
-- the disk.
use eecs.Prelude.{
  ℕ, zero, suc, ◌+◌, ◌≤◌, ◌<◌, ◌≡◌, ◌≢◌, inl, inr, refl, ◌∙◌, false, List, [], ◌∷◌, replicate,
  length-replicate, ◌==◌, if◌then◌else◌, arith,
}
use eecs.Prelude.Words.{IsWord, -W-eq, size_mod}
use native.Mathlib.Nat.{mul-le-mul_right}
use eecs.Double.{Double}
use eecs.Disk.{Disk}
use eecs.Disk.Blocks.{IsDisk, SameShape}
use eecs.Cache.{Cache}
use eecs.Cache.Coherent.{IsCoherent, view}
use eecs.Disk.Blocks.{SameShape-refl, SameShape-trans}
use eecs.Outcome.{ok}
use eecs.Node.{
  Node, metadata_size, get_num_data_bytes, unallocated_block, root_node, has_data, make,
}
use eecs.Node.Codec.{IsNode, IsInfo}
use eecs.Node.Transfer.{Holds-same, serialize-Puts}
use eecs.BTree.{set_links, write_free_nodes}
use eecs.BTree.FreeList.{Chain}

abbrev pub linked : ℕ → ℕ → ℕ → ℕ → ℕ → ℕ → Node
linked type keysize valuesize size root free =
    set_links root free (make type keysize valuesize size)

module _ {keysize valuesize size : ℕ} (key_word : IsWord keysize) (value_word : IsWord valuesize)
    (size_word : IsWord size) (room : metadata_size ≤ size) (root free : ℕ)
    (root_word : IsWord root) (free_word : IsWord free) where
  linked-IsInfo :
      (type : ℕ) → IsWord type → IsInfo (linked type keysize valuesize size root free).info
  unfolding make
  linked-IsInfo type word = record {
    nodetype = word;
    keysize = key_word;
    valuesize = value_word;
    blocksize = size_word;
    rootnode = root_word;
    freelist = free_word;
    numkeys = omega arith;
  }

  pub bare-IsNode :
      (type : ℕ)
      → IsWord type
      → has_data type ≡ false
      → IsNode size (linked type keysize valuesize size root free)
  unfolding make
  bare-IsNode type word no_data = record {
    info = linked-IsInfo type word;
    blocksize = refl;
    room = room;
    held = inr (no_data, rw no_data refl);
  }

  pub root-IsNode : IsNode size (linked root_node keysize valuesize size root free)
  unfolding make
  root-IsNode = record {
    info = linked-IsInfo root_node (omega arith);
    blocksize = refl;
    room = room;
    held =
        let info = (linked root_node keysize valuesize size root free).info in
        let len = length-replicate {A = ℕ} (get_num_data_bytes info) 0 in
        inl (
          refl,
          replicate (get_num_data_bytes info) 0,
          refl,
          omega (arith, len, -W-eq size metadata_size room size_word),
        );
  }

-- The `n` blocks from `i` on, and the first of them, or 0.
unfoldable pub range : ℕ → ℕ → List ℕ
range i zero = []
range i (suc n) = i ∷ range (suc i) n

abbrev pub front : ℕ → ℕ → ℕ
front i zero = 0
front i (suc n) = i

next_lem : (i n m : ℕ) → suc i + n ≡ m → (if suc i == m then 0 else suc i) ≡ front (suc i) n
next_lem i zero m h = ground arith
next_lem i (suc n) m h = ground arith

front-IsWord : (n i m : ℕ) → m + 1 < size_mod → suc i + n ≤ m → IsWord (front (suc i) n)
front-IsWord zero i m h k = omega arith
front-IsWord (suc n) i m h k = omega arith

nonzero : (i : ℕ) → 0 < i → i ≢ 0
nonzero i h e = omega arith

pub below : (j i : ℕ) → j < i → j ≢ i
below j i h e = omega arith

made_unallocated :
    (keysize valuesize size root free : ℕ)
    → (linked unallocated_block keysize valuesize size root free).info.nodetype ≡ unallocated_block
unfolding make
made_unallocated keysize valuesize size root free = refl

module _ {ℓ} {D : Type ℓ} where
  pub blocksize-IsWord : {dk : Disk D} → IsDisk dk → 0 < dk.numblocks → IsWord dk.blocksize
  blocksize-IsWord {dk} h positive = omega (arith, mul-le-mul_right dk.blocksize positive, h.word)

  pub Chain-at : (c : Cache D) (p q : ℕ) (free : List ℕ) → p ≡ q → Chain c q free → Chain c p free
  Chain-at c p q free e h = rw e h

  pub record FreeWritten (c : Cache D) (i n : ℕ) (c' : Cache D) : Type ℓ where
    pub coherent : IsCoherent c'
    pub shape : SameShape c.disk c'.disk
    pub listed : Chain c' (front i n) (range i n)
    pub same : (j : ℕ) → j < i → view c' j ≡ view c j

module _ {ℓ} {D : Type ℓ} ⦃d : Double D⦄ {keysize valuesize : ℕ} (key_word : IsWord keysize)
    (value_word : IsWord valuesize) where
  pub write_free_nodes_lem :
      (n i : ℕ) {c : Cache D}
      → IsCoherent c
      → metadata_size ≤ c.disk.blocksize
      → i + n ≡ c.disk.numblocks
      → 0 < i
      → (c' : Cache D) × (write_free_nodes n i keysize valuesize c ≡ (ok tt, c'))
        × FreeWritten c i n c'
  unfolding write_free_nodes Chain range
  write_free_nodes_lem zero i {c} h room all positive = (
    c,
    refl,
    record { coherent = h; shape = SameShape-refl c.disk; listed = refl; same = λ j lt. refl },
  )
  write_free_nodes_lem (suc n) i {c} h room all positive =
      let size = c.disk.blocksize in
      let next = if suc i == c.disk.numblocks then 0 else suc i in
      let follows = next_lem i n c.disk.numblocks (omega arith) in
      let b = linked unallocated_block keysize valuesize size 1 next in
      let inside : i < c.disk.numblocks = omega arith in
      let next_word : IsWord next =
        rw follows (front-IsWord n i c.disk.numblocks h.disk.numbered (omega arith)) in
      let node : IsNode size b =
        bare-IsNode key_word value_word (blocksize-IsWord h.disk (omega arith)) room 1 next
          (omega arith) next_word unallocated_block (omega arith) refl in
      let (c1, written, p1) = serialize-Puts i b h inside node in
      let (c', rest, w) =
        write_free_nodes_lem n (suc i) p1.coherent (rw p1.shape.blocksize room)
          (omega (arith, p1.shape.numblocks)) (omega arith) in
      (
        c',
        rw written rest,
        record {
          coherent = w.coherent;
          shape = SameShape-trans p1.shape w.shape;
          listed = (
            refl,
            nonzero i positive,
            omega (arith, p1.shape.numblocks, w.shape.numblocks),
            b,
            Holds-same c1 c' i w.shape (w.same i (omega arith)) p1.holds,
            made_unallocated keysize valuesize size 1 next,
            Chain-at c' next (front (suc i) n) (range (suc i) n) follows w.listed,
          );
          same = λ j lt. w.same j (omega arith) ∙ p1.same j (below j i lt);
        },
      )
