-- ===== src/Cache/Same.antt =====
-- What no operation of the buffer cache changes of its disk.
use eecs.Prelude.{
  ℕ, Option, none, some, inl, inr, Bool-cases, Option-cases, List, [], ◌∷◌, length, ltb,
}
use eecs.Double.{Double}
use eecs.Block.{Block}
use eecs.Disk
use eecs.Disk.{Disk}
use eecs.Disk.Same.{
  Same, Same-refl, Same-trans, read_block-Same, write_block-Same, notify_allocate_blocks-Same,
  notify_deallocate_blocks-Same,
}
use eecs.BlockMap.{find}
use eecs.Cache.{
  Cache, is_error, write_back, write_erase, evict, check_delete_oldest, detach_loop, detach,
  notify_allocate_block, notify_deallocate_block, read_miss, read_block, write_block,
}

module _ {ℓ} {D : Type ℓ} ⦃d : Double D⦄ where
  abbrev SameDisk : Cache D → Cache D → Type ℓ
  SameDisk c c' = Same c.disk c'.disk

  write_back-Same : (c : Cache D) (k : ℕ) (b : Block D) → SameDisk c (write_back c k b).0
  unfolding write_back
  write_back-Same c k b = elim (Bool-cases b.dirty) [
    | inl dirty ↦ simp dirty (write_block-Same c.disk k b)
    | inr clean ↦ simp clean (Same-refl c.disk)
  ]

  write_erase-Same : (c : Cache D) (k : ℕ) (b : Block D) → SameDisk c (write_erase c k b).0
  unfolding write_erase
  write_erase-Same c k b = elim (Bool-cases (is_error (write_back c k b).1)) [
    | inl failed ↦ rw failed (write_back-Same c k b)
    | inr done ↦ rw done (write_back-Same c k b)
  ]

  evict-Same : (c : Cache D) (o : Option (ℕ × Block D)) → SameDisk c (evict c o).0
  unfolding evict
  evict-Same c none = Same-refl c.disk
  evict-Same c (some (k, b)) = write_erase-Same c k b

  check_delete_oldest-Same : (c : Cache D) → SameDisk c (check_delete_oldest c).0
  unfolding check_delete_oldest
  check_delete_oldest-Same c = elim (Bool-cases (ltb (length c.blockmap) c.cachesize)) [
    | inl room ↦ rw room (Same-refl c.disk)
    | inr full ↦ rw full (evict-Same c _)
  ]

  detach_loop-Same : (m : List (ℕ × Block D)) (c : Cache D) → SameDisk c (detach_loop m c).0
  unfolding detach_loop
  detach_loop-Same [] c = Same-refl c.disk
  detach_loop-Same ((k, b) ∷ m) c = elim (Bool-cases (is_error (write_back c k b).1)) [
    | inl failed ↦ rw failed (write_back-Same c k b)
    | inr done ↦
        rw done (Same-trans (write_back-Same c k b) (detach_loop-Same m (write_back c k b).0))
  ]

  pub detach-Same : (c : Cache D) → SameDisk c (detach c).0
  unfolding detach
  detach-Same c = elim (Bool-cases (is_error (detach_loop c.blockmap c).1)) [
    | inl failed ↦ rw failed (detach_loop-Same c.blockmap c)
    | inr done ↦ rw done (detach_loop-Same c.blockmap c)
  ]

  pub notify_allocate_block-Same : (c : Cache D) (k : ℕ) → SameDisk c (notify_allocate_block c k).0
  unfolding notify_allocate_block
  notify_allocate_block-Same c k = notify_allocate_blocks-Same c.disk k 1

  pub notify_deallocate_block-Same :
      (c : Cache D) (k : ℕ) → SameDisk c (notify_deallocate_block c k).0
  unfolding notify_deallocate_block
  notify_deallocate_block-Same c k = notify_deallocate_blocks-Same c.disk k 1

  read_miss-Same : (c : Cache D) (k : ℕ) (out : Block D) → SameDisk c (read_miss c k out).cache
  unfolding read_miss
  read_miss-Same c k out =
      let c' = (check_delete_oldest c).0 in
      let same = Same-trans (check_delete_oldest-Same c) (read_block-Same c'.disk k) in
      elim (Bool-cases (is_error (Disk.read_block c'.disk k).rc)) [
        | inl failed ↦ rw failed same
        | inr done ↦ rw done same
      ]

  pub read_block-SameDisk :
      (c : Cache D) (k : ℕ) (out : Block D) → SameDisk c (read_block c k out).cache
  unfolding read_block
  read_block-SameDisk c k out = elim (Option-cases (find k c.blockmap)) [
    | inl miss ↦ rw (miss, read_block) (read_miss-Same c k out)
    | inr (b, hit) ↦ rw (hit, read_block) (Same-refl c.disk)
  ]

  pub write_block-SameDisk : (c : Cache D) (k : ℕ) (b : Block D) → SameDisk c (write_block c k b).0
  unfolding write_block
  write_block-SameDisk c k b = elim (Option-cases (find k c.blockmap)) [
    | inl miss ↦ rw (miss, write_block) (check_delete_oldest-Same c)
    | inr (b', hit) ↦ rw (hit, write_block) (Same-refl c.disk)
  ]
