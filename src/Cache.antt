-- ===== src/Cache.antt =====
-- class BufferCache of btree_lab/buffercache.h and btree_lab/buffercache.cc: a write-back cache of
-- blocks in front of the disk. The cache owns its disk here; the tests of the allocation bitmap
-- only guard messages that global.h turns off, so their results are not used. They read within the
-- bitmap for the blocks of the disk only; for another block the source's call is undefined, and
-- what is returned here says nothing of it.
pub mod Coherent
pub mod WriteBack
pub mod Detach
pub mod Evict
pub mod Calls
pub mod Refine
pub mod Same
pub mod Print
pub mod Labelled
use eecs.Prelude.{
  ℕ, zero, suc, ◌+◌, Bool, true, false, Option, none, some, List, [], ◌∷◌, length, ltb,
  if◌then◌else◌,
}
use eecs.Prelude.Words.{◌+W◌}
use eecs.Error.{Error, no_error, implbug}
use eecs.Double.{Double}
use eecs.Block.{Block}
use eecs.Disk
use eecs.Disk.{Disk, Transfer}
use eecs.BlockMap.{find, insert, assign, erase}

pub record Cache {ℓ} (D : Type ℓ) : Type ℓ where
  pub disk : Disk D
  pub cachesize : ℕ
  pub blockmap : List (ℕ × Block D)
  pub curtime : D
  pub allocs : ℕ
  pub deallocs : ℕ
  pub reads : ℕ
  pub writes : ℕ
  pub diskreads : ℕ
  pub diskwrites : ℕ

-- What ReadBlock returns: the cache, `outblock` and the error code.
pub record CacheRead {ℓ} (D : Type ℓ) : Type ℓ where
  pub cache : Cache D
  pub outblock : Block D
  pub rc : Error

abbrev pub is_error : Error → Bool
is_error no_error = false
is_error _ = true

module _ {ℓ} {D : Type ℓ} ⦃d : Double D⦄ where
  -- BufferCache(DiskSystem *, SIZE_T)
  unfoldable pub init : Disk D → ℕ → Cache D
  init dk cs = record {
    disk = dk;
    cachesize = cs;
    blockmap = [];
    curtime = d.of_size 0;
    allocs = 0;
    deallocs = 0;
    reads = 0;
    writes = 0;
    diskreads = 0;
    diskwrites = 0;
  }

  unfoldable pub attach : Cache D → Cache D × Error
  attach c = (record c { blockmap = [] }, no_error)

  -- The part that CheckDeleteOldest, Detach and FlushBlock share: a dirty block goes to the disk.
  unfoldable pub write_back : Cache D → ℕ → Block D → Cache D × Error
  write_back c k b =
      if b.dirty
      then (let t = Disk.write_block c.disk k b in
          (
            record c {
              disk = t.disk;
              curtime = d.add c.curtime t.reqtime;
              diskwrites = c.diskwrites +W 1;
            },
            t.rc,
          ))
      else (c, no_error)

  -- A block goes to the disk if it is dirty, and then leaves the map.
  unfoldable pub write_erase : Cache D → ℕ → Block D → Cache D × Error
  write_erase c k b =
      let (c', rc) = write_back c k b in
      if is_error rc then (c', rc) else (record c' { blockmap = erase k c'.blockmap }, no_error)

  -- The loop that looks for the oldest block: `ptr` is the iterator, `oldest` its time.
  unfoldable pub find_oldest : D → Option (ℕ × Block D) → List (ℕ × Block D) → Option (ℕ × Block D)
  find_oldest oldest ptr [] = ptr
  find_oldest oldest ptr ((k, b) ∷ m) =
      let older = d.lt b.lastaccessed oldest in
      find_oldest (if older then b.lastaccessed else oldest) (if older then some (k, b) else ptr) m

  unfoldable pub evict : Cache D → Option (ℕ × Block D) → Cache D × Error
  evict c none = (c, no_error)
  evict c (some (k, b)) = write_erase c k b

  unfoldable pub check_delete_oldest : Cache D → Cache D × Error
  check_delete_oldest c =
      if ltb (length c.blockmap) c.cachesize
      then (c, no_error)
      else evict c (find_oldest (d.add c.curtime (d.of_size 1)) none c.blockmap)

  -- The loop of Detach over the blocks that are left.
  unfoldable pub detach_loop : List (ℕ × Block D) → Cache D → Cache D × Error
  detach_loop [] c = (c, no_error)
  detach_loop ((k, b) ∷ m) c =
      let (c', rc) = write_back c k b in
      let rest = detach_loop m c' in if is_error rc then (c', rc) else rest

  unfoldable pub detach : Cache D → Cache D × Error
  detach c =
      let (c', rc) = detach_loop c.blockmap c in
      if is_error rc then (c', rc) else (record c' { blockmap = [] }, no_error)

  unfoldable pub notify_allocate_block : Cache D → ℕ → Cache D × Error
  notify_allocate_block c outblocknum =
      let (dk, rc) = Disk.notify_allocate_blocks c.disk outblocknum 1 in
      (record c { disk = dk; allocs = c.allocs +W 1 }, rc)

  unfoldable pub notify_deallocate_block : Cache D → ℕ → Cache D × Error
  notify_deallocate_block c inblocknum =
      let (dk, rc) = Disk.notify_deallocate_blocks c.disk inblocknum 1 in
      (record c { disk = dk; deallocs = c.deallocs +W 1 }, rc)

  unfoldable pub is_block_allocated : Cache D → ℕ → Bool
  is_block_allocated c inblocknum = Disk.is_block_allocated c.disk inblocknum

  abbrev first_or : Block D → List (Block D) → Block D
  first_or out [] = out
  first_or out (b ∷ _) = b

  -- ReadBlock where the block is not in the map. What CheckDeleteOldest returns is not looked at.
  unfoldable pub read_miss : Cache D → ℕ → Block D → CacheRead D
  read_miss c k outblock =
      let (c', _) = check_delete_oldest c in
      let allocated = Disk.is_block_allocated c'.disk k in
      let t = Disk.read_block c'.disk k in
      let now = d.add c'.curtime t.reqtime in
      let c'' = record c' { disk = t.disk; curtime = now; diskreads = c'.diskreads +W 1 } in
      let b = record (first_or outblock t.blocks) { lastaccessed = now; dirty = false } in
      if is_error t.rc then record { cache = c''; outblock = outblock; rc = t.rc } else record {
        cache = record c'' { blockmap = insert k b c''.blockmap; reads = c''.reads +W 1 };
        outblock = b;
        rc = no_error;
      }

  unfoldable pub read_block : Cache D → ℕ → Block D → CacheRead D
  read_block c inblocknum outblock = elim (find inblocknum c.blockmap) [
    | some b ↦ record {
      cache = record c {
        blockmap = assign inblocknum (record b { lastaccessed = c.curtime }) c.blockmap;
        reads = c.reads +W 1;
      };
      outblock = b;
      rc = no_error;
    }
    | none ↦ read_miss c inblocknum outblock
  ]

  unfoldable pub write_block : Cache D → ℕ → Block D → Cache D × Error
  write_block c inblocknum inblock = elim (find inblocknum c.blockmap) [
    | some b ↦ (
      record c {
        blockmap =
            assign inblocknum (record inblock { lastaccessed = c.curtime; dirty = true })
              c.blockmap;
        writes = c.writes +W 1;
      },
      no_error,
    )
    | none ↦
        let (c', _) = check_delete_oldest c in
        let allocated = Disk.is_block_allocated c'.disk inblocknum in
        (
          record c' {
            blockmap =
                insert inblocknum (record inblock { lastaccessed = c'.curtime; dirty = true })
                  c'.blockmap;
            writes = c'.writes +W 1;
          },
          no_error,
        )
  ]

  unfoldable pub prefetch_block : Cache D → ℕ → Cache D × Error
  prefetch_block c blocknum = (c, implbug)

  unfoldable pub flush_block : Cache D → ℕ → Cache D × Error
  flush_block c blocknum = elim (find blocknum c.blockmap) [
    | none ↦ (c, no_error)
    | some b ↦ write_erase c blocknum b
  ]

module _ {ℓ} {D : Type ℓ} where
  abbrev pub get_block_size : Cache D → ℕ
  get_block_size c = c.disk.blocksize

  abbrev pub get_num_blocks : Cache D → ℕ
  get_num_blocks c = c.disk.numblocks
