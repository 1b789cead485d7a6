-- ===== src/Node/Transfer.antt =====
-- Serialize and Unserialize through the buffer cache, in terms of what the cache shows.
use native.Mathlib.Decide.{ℕ_discrete}
use eecs.Prelude.{ℕ, ◌<◌, ◌≡◌, ◌≢◌, refl, sym, ◌∙◌, true, length, ◌==◌, arith}
use eecs.Double.{Double}
use eecs.Block.{Block, empty, with_size}
use eecs.Disk.Blocks.{SameShape}
use eecs.Cache.{Cache, get_block_size, write_block}
use eecs.Cache.Coherent.{IsCoherent, view}
use eecs.Disk.Blocks.{SameShape-trans}
use eecs.Cache.Calls.{read_block-Returns, write_block-Stores}
use eecs.Outcome.{ok}
use eecs.Node.{Node, decode_node, serialize, unserialize}
use eecs.Node.Codec.{IsNode, decode_node-encode_node}

module _ {ℓ} {D : Type ℓ} where
  -- Block `k` shows the node `b`.
  abbrev pub Holds : Cache D → ℕ → Node → Type 0
  Holds c k b = decode_node (get_block_size c) (view c k) ≡ ok b

  -- A step that changes no block's bytes.
  pub record Keeps (c c' : Cache D) : Type ℓ where
    pub coherent : IsCoherent c'
    pub shape : SameShape c.disk c'.disk
    pub same : (j : ℕ) → view c' j ≡ view c j

  -- A step after which block `k` shows the node `b`, and no other block has changed.
  pub record Puts (c : Cache D) (k : ℕ) (b : Node) (c' : Cache D) : Type ℓ where
    pub coherent : IsCoherent c'
    pub shape : SameShape c.disk c'.disk
    pub holds : Holds c' k b
    pub same : (j : ℕ) → j ≢ k → view c' j ≡ view c j

  pub Keeps-trans : {c c' c'' : Cache D} → Keeps c c' → Keeps c' c'' → Keeps c c''
  Keeps-trans v w = record {
    coherent = w.coherent;
    shape = SameShape-trans v.shape w.shape;
    same = λ j. w.same j ∙ v.same j;
  }

  pub Holds-same :
      (c c' : Cache D) (k : ℕ) {b : Node}
      → SameShape c.disk c'.disk
      → view c' k ≡ view c k
      → Holds c k b
      → Holds c' k b
  Holds-same c c' k shape same h = simp (same, shape.blocksize) h

  pub Holds-Keeps : {c c' : Cache D} (k : ℕ) {b : Node} → Keeps c c' → Holds c k b → Holds c' k b
  Holds-Keeps k w h = simp (w.same k, w.shape.blocksize) h

  pub Holds-Puts :
      {c c' : Cache D} {k : ℕ} (j : ℕ) {b a : Node}
      → Puts c k b c'
      → j ≢ k
      → Holds c j a
      → Holds c' j a
  Holds-Puts j w ne h = simp (w.same j ne, w.shape.blocksize) h

  -- A step after which every block that showed a node still shows it.
  pub record Redraws (c c' : Cache D) : Type ℓ where
    pub shape : SameShape c.disk c'.disk
    pub redrawn : (j : ℕ) (a : Node) → Holds c j a → Holds c' j a

  pub Redraws-Keeps : {c c' : Cache D} → Keeps c c' → Redraws c c'
  Redraws-Keeps w = record { shape = w.shape; redrawn = λ j a. Holds-Keeps j w }

  pub Redraws-Puts :
      {c c' : Cache D} {k : ℕ} {b : Node} → Holds c k b → Puts c k b c' → Redraws c c'
  Redraws-Puts {c} {c'} {k} {b} shown w = record {
    shape = w.shape;
    redrawn = λ j a h. elim (ℕ_discrete k j) [
      | yes same ↦ simp (sym same) (w.holds ∙ sym shown ∙ simp same h)
      | no ne ↦ Holds-Puts j w (λ e. ne (sym e)) h
    ];
  }

module _ {ℓ} {D : Type ℓ} ⦃d : Double D⦄ where
  -- Unserialize of a block that shows a node returns it and changes no block.
  pub unserialize-Keeps :
      {c : Cache D} (k : ℕ) (b : Node)
      → IsCoherent c
      → k < c.disk.numblocks
      → Holds c k b
      → (c' : Cache D) × (unserialize k c ≡ (ok b, c')) × Keeps c c'
  unfolding unserialize
  unserialize-Keeps {c} k b h inside holds =
      let r = read_block-Returns k empty h inside in
      (
        _,
        rw (r.rc, r.bytes, r.shape.blocksize, holds) refl,
        record { coherent = r.coherent; shape = r.shape; same = r.same },
      )

  -- Serialize of a node that fits its block succeeds; then the block shows the node, and every
  -- other block what it did.
  pub serialize-Puts :
      {c : Cache D} (k : ℕ) (b : Node)
      → IsCoherent c
      → k < c.disk.numblocks
      → IsNode c.disk.blocksize b
      → (c' : Cache D) × (serialize b k c ≡ (ok tt, c')) × Puts c k b c'
  unfolding serialize
  serialize-Puts {c} k b h inside fits =
      let (bs, encoded, size, decoded) = decode_node-encode_node fits in
      let same_size : (b.info.blocksize == get_block_size c) ≡ true =
        ground (arith, fits.blocksize) in
      let block : Block D = record (with_size (length bs)) { bytes = bs } in
      let w = write_block-Stores k block h inside size in
      let written : view (write_block c k block).0 k ≡ bs = ground (arith, w.after k) in
      (
        _,
        rw (same_size, encoded, w.rc) refl,
        record {
          coherent = w.coherent;
          shape = w.shape;
          holds = simp (written, w.shape.blocksize) decoded;
          same = λ j ne. ground (arith, w.after j);
        },
      )

  -- Through a coherent cache, Unserialize after Serialize to a block of the disk returns the node
  -- written, if its type, size and data fit the block.
  pub unserialize-serialize :
      {c : Cache D} (k : ℕ) (b : Node)
      → IsCoherent c
      → k < c.disk.numblocks
      → IsNode c.disk.blocksize b
      → (unserialize k (serialize b k c).1).0 ≡ ok b
  unserialize-serialize {c} k b h inside fits =
      let (c', e, w) = serialize-Puts k b h inside fits in
      let (c'', e', _) = unserialize-Keeps k b w.coherent (rw w.shape.numblocks inside) w.holds in
      rw e (rw e' refl)
