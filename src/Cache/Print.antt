-- ===== src/Cache/Print.antt =====
-- BufferCache::Print of btree_lab/buffercache.cc.
use eecs.Prelude.{ℕ, Bool, true, false, List, [], ◌∷◌, ◌++◌}
use eecs.Double.{Double}
use eecs.Block.{Block}
use eecs.Text.{codes, print_unsigned}
use eecs.Disk.Print.{print_disk}
use eecs.Cache.{Cache, get_block_size}

abbrev dirty_mark : Bool → List ℕ
dirty_mark true = codes "(dirty)"
dirty_mark false = []

module _ {ℓ} {D : Type ℓ} where
  abbrev print_entry : ℕ × Block D → List ℕ
  print_entry (k, b) = print_unsigned k ++ dirty_mark b.dirty

  -- The rest of the loop over the map, after its first round.
  unfoldable pub print_more : List (ℕ × Block D) → List ℕ
  print_more [] = []
  print_more (e ∷ m) = codes ", " ++ print_entry e ++ print_more m

  abbrev print_entries : List (ℕ × Block D) → List ℕ
  print_entries [] = []
  print_entries (e ∷ m) = print_entry e ++ print_more m

module _ {ℓ} {D : Type ℓ} ⦃d : Double D⦄ where
  unfoldable pub print_cache : Cache D → List ℕ
  print_cache c =
      codes "BufferCache(cachesize="
      ++ print_unsigned c.cachesize
      ++ codes ", blocksize="
      ++ print_unsigned (get_block_size c)
      ++ codes ", curtime="
      ++ d.show c.curtime
      ++ codes ", allocs="
      ++ print_unsigned c.allocs
      ++ codes ", deallocs="
      ++ print_unsigned c.deallocs
      ++ codes ", reads="
      ++ print_unsigned c.reads
      ++ codes ", writes="
      ++ print_unsigned c.writes
      ++ codes ", diskreads="
      ++ print_unsigned c.diskreads
      ++ codes ", diskwrites="
      ++ print_unsigned c.diskwrites
      ++ codes ", blocks = {"
      ++ print_entries c.blockmap
      ++ codes "}, disk="
      ++ print_disk c.disk
      ++ codes ")"
