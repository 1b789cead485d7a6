-- ===== src/Tests/Histories.antt =====
-- Witnesses of the theorems on the histories of an index: three allocations after Attach.
use eecs.Prelude.{ℕ, ◌≡◌, ◌∙◌, List, [], ◌∷◌, arith}
use eecs.BTree.{Index}
use eecs.BTree.FreeList.{IsIndex}
use eecs.BTree.Allocate.{allocate_node_lem}
use eecs.BTree.Accounts.{count}
use eecs.BTree.Attach.{attach-IsIndex}
use eecs.BTree.FreeNodes.{range}
use eecs.BTree.History.{Reaches, attached, taken, allocate_node-unused, allocate_node-full}
use eecs.Tests.Trees.{unattached, tree_disk-IsDisk}
use eecs.Tests.{blank, blank_cache-IsCoherent, whole_times}

-- An index of 5 blocks is reached with the blocks `used` in use and the blocks `free` free.
abbrev Stage : List ℕ → List ℕ → Type 0
Stage used free = (x : Index ℕ) × Reaches x used × IsIndex x free × (x.cache.disk.numblocks ≡ 5)

made : Stage [] (2 ∷ 3 ∷ 4 ∷ [])
unfolding range
made =
    let coherent = blank_cache-IsCoherent (blank 5 48) tree_disk-IsDisk in
    let (x, e, index, root, shown, shape) =
      attach-IsIndex unattached coherent (omega arith) (omega arith) (omega arith) (omega arith) in
    (
      x,
      attached unattached x coherent (omega arith) (omega arith) (omega arith) (omega arith) e,
      index,
      shape.numblocks,
    )

taken_next : {used : List ℕ} (n : ℕ) (free : List ℕ) → Stage used (n ∷ free) → Stage (n ∷ used) free
taken_next {used} n free (x, r, h, size) =
    let (x', e, w) = allocate_node_lem (n ∷ free) h in
    (x', taken x x' used n r e, w.index, w.shape.numblocks ∙ size)

used_2 : Stage (2 ∷ []) (3 ∷ 4 ∷ [])
used_2 = taken_next 2 (3 ∷ 4 ∷ []) made

used_all : Stage (4 ∷ 3 ∷ 2 ∷ []) []
used_all = taken_next 4 [] (taken_next 3 (4 ∷ []) used_2)

allocate_node-unused_example : count 3 (2 ∷ []) ≡ 0
allocate_node-unused_example =
    allocate_node-unused 3 used_2.1 (allocate_node_lem (3 ∷ 4 ∷ []) used_2.2).1

allocate_node-full_example : count 4 (4 ∷ 3 ∷ 2 ∷ []) ≡ 1
allocate_node-full_example =
    allocate_node-full 4 used_all.1 (allocate_node_lem [] used_all.2) (omega arith)
      (omega (arith, used_all.3))
