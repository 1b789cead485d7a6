-- ===== src/Tools/BufferData.antt =====
-- btree_lab/readbuffer.cc, btree_lab/writebuffer.cc and btree_lab/freebuffer.cc: blocks through the
-- buffer cache. readbuffer takes the size of the cache and then the stem, as its message says; the
-- other two take them in the other order. The destructor of the cache detaches it again.
pub mod Loops
pub mod RoundTrip
pub mod Freed
use eecs.Prelude.{
  ℕ, zero, suc, ◌+◌, ◌-◌, Bool, true, false, List, [], ◌∷◌, ◌++◌, take, drop, if◌then◌else◌,
}
use eecs.Prelude.Words.{◌+W◌}
use eecs.Error.{Error, no_error}
use eecs.Double.{Double}
use eecs.Block.{Block, with_size}
use eecs.Cache
use eecs.Cache.{Cache, is_error, init, get_block_size}
use eecs.Outcome.{Outcome, ok, crash}
use eecs.Text.{atoi, visible}
use eecs.Disk.{Disk}
use eecs.Disk.Init.{Files, open_disk}
use eecs.Tools.{Exit, minus_one_status, usage_exit, with_disk, exit_with}
use eecs.Tools.DiskData.{padded}

-- for (i = blocknum; i < blocknum + numblocks; i++): the sum wraps around.
abbrev pub rounds : ℕ → ℕ → ℕ
rounds blocknum numblocks = blocknum +W numblocks - blocknum

module _ {ℓ} {D : Type ℓ} ⦃d : Double D⦄ where
  -- The loop of readbuffer: the bytes printed, the cache and the code that ended it.
  unfoldable pub read_blocks : ℕ → ℕ → Cache D → List ℕ × Cache D × Error
  read_blocks zero i c = ([], c, no_error)
  read_blocks (suc n) i c =
      let r = Cache.read_block c i (with_size (get_block_size c)) in
      let rest = read_blocks n (i + 1) r.cache in
      if is_error r.rc
      then ([], r.cache, r.rc)
      else (take r.outblock.length r.outblock.bytes ++ rest.0, rest.1, rest.2)

  -- The block that the loop over `cin >> block.data[j]` makes.
  abbrev pub input_block : ℕ → List ℕ → Block D
  input_block size s = record (with_size size) { bytes = padded size s }

  -- The loop of writebuffer, from the characters `s` of the input.
  unfoldable pub write_blocks : ℕ → ℕ → List ℕ → Cache D → Cache D × Error
  write_blocks zero i s c = (c, no_error)
  write_blocks (suc n) i s c =
      let size = get_block_size c in
      let a = Cache.notify_allocate_block c i in
      let w = Cache.write_block a.0 i (input_block size s) in
      let rest = write_blocks n (i + 1) (drop size s) w.0 in
      if is_error a.1 then a else if is_error w.1 then w else rest

  -- The loop of freebuffer.
  unfoldable pub free_blocks : ℕ → ℕ → Cache D → Cache D × Error
  free_blocks zero i c = (c, no_error)
  free_blocks (suc n) i c =
      let r = Cache.notify_deallocate_block c i in
      let rest = free_blocks n (i + 1) r.0 in if is_error r.1 then r else rest

  -- A new cache, attached.
  abbrev pub attached : Disk D → ℕ → Cache D
  attached dk cachesize = (Cache.attach (init dk cachesize)).0

  -- return, with the destructors of the cache and the disk
  abbrev pub leave : ℕ → List ℕ → Files → Cache D → Outcome Exit
  leave status out files c = exit_with status out files (Cache.detach c).0.disk

  -- After the loop: -1 if it failed, and otherwise cache.Detach(), whose code is not looked at.
  abbrev pub after_loop : List ℕ → Files → Cache D × Error → Outcome Exit
  after_loop out files (c, no_error) = leave 0 out files (Cache.detach c).0
  after_loop out files (c, _) = leave minus_one_status out files c

module _ {ℓ} (D : Type ℓ) ⦃d : Double D⦄ where
  unfoldable pub read_buffer : List (List ℕ) → Files → Outcome Exit
  read_buffer (cachesize ∷ filestem ∷ blocknum ∷ numblocks ∷ _) files =
      with_disk {D = D} (open_disk files filestem) (λ dk.
        let r =
          read_blocks (rounds (atoi blocknum) (atoi numblocks)) (atoi blocknum)
            (attached dk (atoi cachesize)) in
        after_loop r.0 files (r.1, r.2))
  read_buffer _ files = usage_exit files

  unfoldable pub write_buffer : List (List ℕ) → List ℕ → Files → Outcome Exit
  write_buffer (filestem ∷ cachesize ∷ blocknum ∷ numblocks ∷ _) input files =
      with_disk {D = D} (open_disk files filestem) (λ dk. after_loop [] files (
        write_blocks (rounds (atoi blocknum) (atoi numblocks)) (atoi blocknum) (visible input)
          (attached dk (atoi cachesize))))
  write_buffer _ input files = usage_exit files

  unfoldable pub free_buffer : List (List ℕ) → Files → Outcome Exit
  free_buffer (filestem ∷ cachesize ∷ blocknum ∷ numblocks ∷ _) files =
      with_disk {D = D} (open_disk files filestem) (λ dk. after_loop [] files (
        free_blocks (rounds (atoi blocknum) (atoi numblocks)) (atoi blocknum)
          (attached dk (atoi cachesize))))
  free_buffer _ files = usage_exit files
