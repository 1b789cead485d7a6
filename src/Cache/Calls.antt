-- ===== src/Cache/Calls.antt =====
-- ReadBlock, WriteBlock and FlushBlock of btree_lab/buffercache.cc against what a client sees.
use native.Mathlib.Decide.{ℕ_discrete}
use eecs.Prelude.{
  ℕ, ◌<◌, ◌≡◌, ◌≢◌, refl, sym, ap, ◌∙◌, true, false, Option-cases, none, some, List, length, inl,
  inr, ◌==◌, if◌then◌else◌, arith,
}
use eecs.Prelude.{true≢false}
use eecs.Error.{Error, no_error}
use eecs.Double.{Double}
use eecs.Block.{Block, with_size}
use eecs.Disk
use eecs.Disk.{Disk}
use eecs.Disk.Blocks.{SameShape, SameShape-IsDisk, stored, read_block-ReadsBlock, length-stored}
use eecs.BlockMap.{find, insert, assign, IsSorted}
use eecs.BlockMap.Laws.{find-insert, find-assign, insert-IsSorted, assign-IsSorted}
use eecs.Cache.{Cache, CacheRead, check_delete_oldest, read_miss, read_block, write_block}
use eecs.Cache.Coherent.{IsCached, IsCoherent, view}
use eecs.Disk.Blocks.{SameShape-refl, SameShape-trans}
use eecs.Cache.Evict.{check_delete_oldest-Evicts}

module _ {ℓ} {D : Type ℓ} where
  -- A map that holds `b` at `k`, and elsewhere what `m` holds.
  abbrev Updates : ℕ → Block D → List (ℕ × Block D) → List (ℕ × Block D) → Type ℓ
  Updates k b m m' = (j : ℕ) → find j m' ≡ (if k == j then some b else find j m)

  -- The disk of `c'` holds what that of `c` holds, and its map is that of `c` with `b` put at `k`.
  record Puts (c c' : Cache D) (k : ℕ) (b : Block D) : Type ℓ where
    shape : SameShape c.disk c'.disk
    same : (j : ℕ) → stored c'.disk j ≡ stored c.disk j
    sorted : IsSorted c'.blockmap
    put : Updates k b c.blockmap c'.blockmap

  IsCached-same :
      {c c' : Cache D} {k j : ℕ} {b a : Block D}
      → Puts c c' k b
      → IsCached c.disk j a
      → IsCached c'.disk j a
  IsCached-same {j} w q = record {
    inside = rw w.shape.numblocks q.inside;
    size = q.size ∙ sym w.shape.blocksize;
    clean = λ e. q.clean e ∙ sym (w.same j);
  }

  put-IsCoherent :
      {c c' : Cache D} (k : ℕ) (b : Block D)
      → IsCoherent c
      → IsCached c.disk k b
      → Puts c c' k b
      → IsCoherent c'
  put-IsCoherent {c} {c'} k b h q w = record {
    disk = SameShape-IsDisk w.shape h.disk;
    sorted = w.sorted;
    cached = λ j a e. elim (ℕ_discrete k j) [
      | yes p ↦ let same : a ≡ b = ground (arith, w.put j, p) in rw (← p, same) (IsCached-same w q)
      | no p ↦ IsCached-same w (h.cached j a (ground (arith, w.put j)))
    ];
  }

  put-view :
      {c c' : Cache D} (k : ℕ) (b : Block D)
      → Puts c c' k b
      → (j : ℕ) → view c' j ≡ (if k == j then b.bytes else view c j)
  unfolding view
  put-view k b w j = ground (arith, w.put j, w.same j)

  put-view_same :
      {c c' : Cache D} (k : ℕ) (b : Block D)
      → Puts c c' k b
      → b.bytes ≡ view c k
      → (j : ℕ) → view c' j ≡ view c j
  put-view_same {c} k b w e j = elim (ℕ_discrete k j) [
    | yes p ↦ ground (arith, put-view k b w j, e, ap (view c) p)
    | no p ↦ ground (arith, put-view k b w j)
  ]

  view_hit : (c : Cache D) (k : ℕ) (b : Block D) → find k c.blockmap ≡ some b → view c k ≡ b.bytes
  unfolding view
  view_hit c k b hit = rw hit

  view_miss : (c : Cache D) (k : ℕ) → find k c.blockmap ≡ none → view c k ≡ stored c.disk k
  unfolding view
  view_miss c k miss = rw miss

module _ {ℓ} {D : Type ℓ} ⦃d : Double D⦄ where
  -- What a successful ReadBlock of block `k` does.
  pub record Returns (c : Cache D) (k : ℕ) (r : CacheRead D) : Type ℓ where
    pub rc : r.rc ≡ no_error
    pub bytes : r.outblock.bytes ≡ view c k
    pub coherent : IsCoherent r.cache
    pub same : (j : ℕ) → view r.cache j ≡ view c j
    pub shape : SameShape c.disk r.cache.disk
    pub cached : find k r.cache.blockmap ≢ none

  -- What a successful WriteBlock of the bytes `bytes` to block `k` does.
  pub record Stores (c : Cache D) (k : ℕ) (bytes : List ℕ) (r : Cache D × Error) : Type ℓ where
    pub rc : r.1 ≡ no_error
    pub coherent : IsCoherent r.0
    pub after : (j : ℕ) → view r.0 j ≡ (if k == j then bytes else view c j)
    pub shape : SameShape c.disk r.0.disk

  assign-Puts :
      (c c' : Cache D) (k : ℕ) (b : Block D) {old : Block D}
      → IsCoherent c
      → find k c.blockmap ≡ some old
      → c'.disk ≡ c.disk
      → c'.blockmap ≡ assign k b c.blockmap
      → Puts c c' k b
  assign-Puts c c' k b h hit same map = record {
    shape = rw same (SameShape-refl c.disk);
    same = λ j. rw same;
    sorted = rw map (assign-IsSorted k b c.blockmap h.sorted);
    put = λ j. rw map (find-assign k b c.blockmap j hit);
  }

  insert-Puts :
      (c c' : Cache D) (k : ℕ) (b : Block D)
      → IsCoherent c
      → SameShape c.disk c'.disk
      → ((j : ℕ) → stored c'.disk j ≡ stored c.disk j)
      → c'.blockmap ≡ insert k b c.blockmap
      → Puts c c' k b
  insert-Puts c c' k b h shape same map = record {
    shape = shape;
    same = same;
    sorted = rw map (insert-IsSorted k b c.blockmap h.sorted);
    put = λ j. rw map (find-insert k b c.blockmap j);
  }

  Puts-cached : {c c' : Cache D} (k : ℕ) (b : Block D) → Puts c c' k b → find k c'.blockmap ≢ none
  Puts-cached k b w = ground (arith, w.put k)

  read_hit :
      {c : Cache D} (k : ℕ) (out b : Block D)
      → IsCoherent c
      → find k c.blockmap ≡ some b
      → Returns c k (read_block c k out)
  unfolding read_block
  read_hit {c} k out b h hit =
      let b' = record b { lastaccessed = c.curtime } in
      let w = assign-Puts c _ k b' h hit refl refl in
      let q = h.cached k b hit in
      let shown = view_hit c k b hit in
      rw (hit, read_block)
        (record {
          rc = refl;
          bytes = sym shown;
          coherent =
              put-IsCoherent k b' h (record { inside = q.inside; size = q.size; clean = q.clean })
                w;
          same = put-view_same k b' w (sym shown);
          shape = SameShape-refl c.disk;
          cached = Puts-cached k b' w;
        })

  read_miss-Returns :
      {c : Cache D} (k : ℕ) (out : Block D)
      → IsCoherent c
      → k < c.disk.numblocks
      → find k c.blockmap ≡ none
      → Returns c k (read_miss c k out)
  unfolding read_miss
  read_miss-Returns {c} k out h inside miss =
      let e = check_delete_oldest-Evicts h in
      let c' = (check_delete_oldest c).0 in
      let r = read_block-ReadsBlock e.coherent.disk k (rw e.shape.numblocks inside) in
      let t = Disk.read_block c'.disk k in
      let b = record (with_size c'.disk.blocksize) {
        bytes = stored c'.disk k;
        lastaccessed = d.add c'.curtime t.reqtime;
        dirty = false;
      } in
      let shown = view_miss c' k (e.absent k miss) in
      let w = insert-Puts c' _ k b e.coherent r.shape r.same refl in
      let q : IsCached c'.disk k b = record {
        inside = rw e.shape.numblocks inside;
        size = length-stored c'.disk k;
        clean = λ _. refl;
      } in
      rw (r.rc, r.block)
        (record {
          rc = refl;
          bytes = sym shown ∙ e.same k;
          coherent = put-IsCoherent k b e.coherent q w;
          same = λ j. put-view_same k b w (sym shown) j ∙ e.same j;
          shape = SameShape-trans e.shape r.shape;
          cached = Puts-cached k b w;
        })

  -- From a coherent cache ReadBlock of a block of the disk succeeds, returns the bytes in view,
  -- keeps the cache coherent and every block in view as it was, and leaves the block cached.
  pub read_block-Returns :
      {c : Cache D} (k : ℕ) (out : Block D)
      → IsCoherent c
      → k < c.disk.numblocks
      → Returns c k (read_block c k out)
  unfolding read_block
  read_block-Returns {c} k out h inside = elim (Option-cases (find k c.blockmap)) [
    | inl miss ↦ rw (miss, read_block) (read_miss-Returns k out h inside miss)
    | inr (b, hit) ↦ unfold read_block in read_hit k out b h hit
  ]

  -- From a coherent cache WriteBlock of a block's worth of bytes to a block of the disk succeeds,
  -- keeps the cache coherent, and changes the view of that block alone.
  pub write_block-Stores :
      {c : Cache D} (k : ℕ) (b : Block D)
      → IsCoherent c
      → k < c.disk.numblocks
      → length b.bytes ≡ c.disk.blocksize
      → Stores c k b.bytes (write_block c k b)
  unfolding write_block
  write_block-Stores {c} k b h inside size = elim (Option-cases (find k c.blockmap)) [
    | inl miss ↦
        let e = check_delete_oldest-Evicts h in
        let c' = (check_delete_oldest c).0 in
        let b' = record b { lastaccessed = c'.curtime; dirty = true } in
        let w = insert-Puts c' _ k b' e.coherent (SameShape-refl c'.disk) (λ j. refl) refl in
        let q : IsCached c'.disk k b' = record {
          inside = rw e.shape.numblocks inside;
          size = size ∙ sym e.shape.blocksize;
          clean = λ x. absurd (true≢false x);
        } in
        rw (miss, write_block)
          (record {
            rc = refl;
            coherent = put-IsCoherent k b' e.coherent q w;
            after = λ j. ground (arith, put-view k b' w j, e.same j);
            shape = e.shape;
          })
    | inr (old, hit) ↦
        let b' = record b { lastaccessed = c.curtime; dirty = true } in
        let w = assign-Puts c _ k b' h hit refl refl in
        let q : IsCached c.disk k b' = record {
          inside = inside;
          size = size;
          clean = λ x. absurd (true≢false x);
        } in
        rw (hit, write_block)
          (record {
            rc = refl;
            coherent = put-IsCoherent k b' h q w;
            after = put-view k b' w;
            shape = SameShape-refl c.disk;
          })
  ]
