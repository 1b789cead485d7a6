-- ===== src/Tests/Caches.antt =====
-- Tests of btree_lab/buffercache.cc and witnesses of the theorems on it.
use eecs.Prelude.{ℕ, ◌+◌, ◌≡◌, ◌⊎◌, refl, true, some, List, [], ◌∷◌, length, arith}
use eecs.Error.{no_error}
use eecs.Block
use eecs.Block.{Block}
use eecs.BlockMap.{find, erase}
use eecs.Disk.Blocks.{stored}
use eecs.Cache.{Cache, check_delete_oldest, detach, read_block, write_block}
use eecs.Cache.Coherent.{IsCoherent, view}
use eecs.Cache.Evict.{IsStrict, NoneOlder, check_delete_oldest-oldest}
use eecs.Cache.Calls.{Returns, Stores, read_block-Returns, write_block-Stores}
use eecs.Cache.Refine.{
  Call, read, write, flush, allocate, detach_all, AllValid, Simulates, answer_all, serve_all,
  serve_all-Simulates, detach-serve_all,
}
use eecs.Tests.{
  small_disk, small_disk-IsDisk, small_cache, small_cache-IsCoherent, two_bytes, whole_times,
}

abbrev dirty_block : Block ℕ
dirty_block = record (two_bytes 7 8) { dirty = true }

-- The cache has room for no more blocks; block 2 is on no disk yet.
abbrev full_cache : Cache ℕ
full_cache = record small_cache { blockmap = (2, dirty_block) ∷ []; curtime = 5 }

full_cache-IsCoherent : IsCoherent full_cache
unfolding find
full_cache-IsCoherent = record {
  disk = small_disk-IsDisk;
  sorted = tt;
  cached = λ k b e. record {
    inside = ground (arith, e);
    size = ground (arith, e);
    clean = λ clean. ground (arith, e, clean);
  };
}

-- Two blocks go through a cache of one, past two evictions, and come back.
abbrev calls : List (Call ℕ)
calls =
    write 1 (two_bytes 7 8)
    ∷ write 3 (two_bytes 9 9)
    ∷ allocate 3
    ∷ read 1
    ∷ flush 3
    ∷ read 3
    ∷ detach_all
    ∷ read 0
    ∷ []

calls_valid : AllValid small_disk calls
calls_valid = (
  (omega arith, refl),
  (
    (omega arith, refl),
    (omega arith, (omega arith, (omega arith, (omega arith, (tt, (omega arith, tt)))))),
  ),
)

serve_all-Simulates_example :
    Simulates small_cache (serve_all small_cache calls) (answer_all (λ k. view small_cache k) calls)
serve_all-Simulates_example =
    serve_all-Simulates calls (λ k. view small_cache k) small_cache-IsCoherent calls_valid
      (λ k. refl)

detach-serve_all_example :
    ((detach (serve_all small_cache calls).1).1 ≡ no_error)
    × ((j : ℕ)
        → stored (detach (serve_all small_cache calls).1).0.disk j
          ≡ (answer_all (view small_cache) calls).1 j)
detach-serve_all_example = detach-serve_all calls small_cache-IsCoherent calls_valid

read_block-Returns_example : Returns small_cache 2 (read_block small_cache 2 Block.empty)
read_block-Returns_example = read_block-Returns 2 Block.empty small_cache-IsCoherent (omega arith)

write_block-Stores_example :
    Stores full_cache 3 (9 ∷ 9 ∷ []) (write_block full_cache 3 (two_bytes 9 9))
write_block-Stores_example =
    write_block-Stores 3 (two_bytes 9 9) full_cache-IsCoherent (omega arith) refl

whole_times-IsStrict : IsStrict ℕ
unfolding whole_times
whole_times-IsStrict = record {
  irreflexive = λ x. ground arith;
  transitive = λ x y z p q. ground (arith, p, q);
}

check_delete_oldest-oldest_example :
    (((check_delete_oldest full_cache).0.blockmap ≡ full_cache.blockmap)
      × NoneOlder 6 full_cache.blockmap)
    ⊎ ((k : ℕ) × (b : Block ℕ) × (find k full_cache.blockmap ≡ some b)
        × NoneOlder b.lastaccessed full_cache.blockmap
        × ((check_delete_oldest full_cache).0.blockmap ≡ erase k full_cache.blockmap)
        × (length (check_delete_oldest full_cache).0.blockmap + 1 ≡ 1))
unfolding whole_times
check_delete_oldest-oldest_example =
    check_delete_oldest-oldest whole_times-IsStrict full_cache-IsCoherent (omega arith)
