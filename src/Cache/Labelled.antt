-- ===== src/Cache/Labelled.antt =====
-- The length field of the cached blocks: it is that of their bytes, if the blocks written have it so.
use eecs.Prelude.{
  ℕ, ◌<◌, ◌≡◌, sym, Option, none, some, inl, inr, Bool-cases, Option-cases, List, [], ◌∷◌, length,
  ltb, arith,
}
use eecs.Double.{Double}
use eecs.Block.{Block, with_size}
use eecs.Disk.Blocks.{length-stored, read_block-ReadsBlock}
use eecs.BlockMap.{find, insert, assign, erase}
use eecs.Cache.{
  Cache, is_error, write_back, write_erase, evict, check_delete_oldest, read_miss, read_block,
}
use eecs.Cache.Coherent.{IsCoherent}
use eecs.Cache.Evict.{check_delete_oldest-Evicts}

module _ {ℓ} {D : Type ℓ} where
  abbrev pub Labelled : Block D → Type 0
  Labelled b = b.length ≡ length b.bytes

  abbrev pub AllLabelled : List (ℕ × Block D) → Type 0
  AllLabelled [] = Unit {0}
  AllLabelled ((k, b) ∷ m) = Labelled b × AllLabelled m

  find-Labelled :
      (k : ℕ) (m : List (ℕ × Block D)) {b : Block D}
      → AllLabelled m
      → find k m ≡ some b
      → Labelled b
  unfolding find
  find-Labelled k [] h e = cc
  find-Labelled k ((j, b') ∷ m) {b} h e = ground (arith, find-Labelled k m {b = b} h.1, h.0, e)

  insert-AllLabelled :
      (k : ℕ) (b : Block D) (m : List (ℕ × Block D))
      → Labelled b
      → AllLabelled m
      → AllLabelled (insert k b m)
  unfolding insert
  insert-AllLabelled k b [] p h = (p, tt)
  insert-AllLabelled k b ((j, b') ∷ m) p h =
      ground (arith, insert-AllLabelled k b m p h.1, h.0, h.1)

  assign-AllLabelled :
      (k : ℕ) (b : Block D) (m : List (ℕ × Block D))
      → Labelled b
      → AllLabelled m
      → AllLabelled (assign k b m)
  unfolding assign
  assign-AllLabelled k b [] p h = tt
  assign-AllLabelled k b ((j, b') ∷ m) p h =
      ground (arith, assign-AllLabelled k b m p h.1, h.0, h.1)

  erase-AllLabelled : (k : ℕ) (m : List (ℕ × Block D)) → AllLabelled m → AllLabelled (erase k m)
  unfolding erase
  erase-AllLabelled k [] h = tt
  erase-AllLabelled k ((j, b') ∷ m) h = ground (arith, erase-AllLabelled k m h.1, h.0, h.1)

module _ {ℓ} {D : Type ℓ} ⦃d : Double D⦄ where
  write_back_map : (c : Cache D) (k : ℕ) (b : Block D) → (write_back c k b).0.blockmap ≡ c.blockmap
  unfolding write_back
  write_back_map c k b = ground arith

  write_erase-AllLabelled :
      (c : Cache D) (k : ℕ) (b : Block D)
      → AllLabelled c.blockmap
      → AllLabelled (write_erase c k b).0.blockmap
  unfolding write_erase
  write_erase-AllLabelled c k b h = elim (Bool-cases (is_error (write_back c k b).1)) [
    | inl failed ↦ rw (failed, write_back_map c k b) h
    | inr done ↦ rw (done, write_back_map c k b) (erase-AllLabelled k c.blockmap h)
  ]

  evict-AllLabelled :
      (c : Cache D) (o : Option (ℕ × Block D))
      → AllLabelled c.blockmap
      → AllLabelled (evict c o).0.blockmap
  unfolding evict
  evict-AllLabelled c none h = h
  evict-AllLabelled c (some (k, b)) h = write_erase-AllLabelled c k b h

  check_delete_oldest-AllLabelled :
      (c : Cache D) → AllLabelled c.blockmap → AllLabelled (check_delete_oldest c).0.blockmap
  unfolding check_delete_oldest
  check_delete_oldest-AllLabelled c h = elim (Bool-cases (ltb (length c.blockmap) c.cachesize)) [
    | inl room ↦ rw room h
    | inr full ↦ rw full (evict-AllLabelled c _ h)
  ]

  read_miss-Labelled :
      {c : Cache D} (k : ℕ) (out : Block D)
      → IsCoherent c
      → k < c.disk.numblocks
      → AllLabelled c.blockmap
      → Labelled (read_miss c k out).outblock × AllLabelled (read_miss c k out).cache.blockmap
  unfolding read_miss with_size
  read_miss-Labelled {c} k out h inside all =
      let e = check_delete_oldest-Evicts h in
      let c' = (check_delete_oldest c).0 in
      let r = read_block-ReadsBlock e.coherent.disk k (rw e.shape.numblocks inside) in
      let size = sym (length-stored c'.disk k) in
      let rest = check_delete_oldest-AllLabelled c all in
      rw (r.rc, r.block) (size, insert-AllLabelled k _ _ size rest)

  -- A read from a coherent cache with blocks so labelled.
  pub read_block-Labelled :
      {c : Cache D} (k : ℕ) (out : Block D)
      → IsCoherent c
      → k < c.disk.numblocks
      → AllLabelled c.blockmap
      → Labelled (read_block c k out).outblock × AllLabelled (read_block c k out).cache.blockmap
  unfolding read_block
  read_block-Labelled {c} k out h inside all = elim (Option-cases (find k c.blockmap)) [
    | inl miss ↦ rw (miss, read_block) (read_miss-Labelled k out h inside all)
    | inr (b, hit) ↦
        let own = find-Labelled k c.blockmap all hit in
        rw (hit, read_block) (own, assign-AllLabelled k _ c.blockmap own all)
  ]
