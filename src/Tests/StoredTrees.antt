-- ===== src/Tests/StoredTrees.antt =====
-- Witness of the theorem on runs of the index tools: the blocks of the index of Tests.Trees, on a disk.
use eecs.Prelude.{ℕ, ◌≡◌, inr, refl, none, List, [], ◌∷◌, ◌++◌, arith}
use eecs.Outcome.{ok}
use eecs.Text.{codes}
use eecs.File.Contents.{written}
use eecs.Disk.{Disk, sanity_check_config}
use eecs.Disk.Blocks.{IsDisk}
use eecs.Disk.Init.{close_disk}
use eecs.Disk.Init.Reopen.{IsReady}
use eecs.Cache.{init}
use eecs.Node.{
  Node, NodeMetadata, unallocated_block, encode_info, decode_node, get_key, get_ptr, get_val,
}
use eecs.Node.Transfer.{Holds}
use eecs.BTree.FreeList.{Chain}
use eecs.BTree.Tree.{leaf}
use eecs.BTree.Scans.{Shows}
use eecs.Tools.IndexTools.Stores.{Stores}
use eecs.Tools.IndexTools.Sequences.{all_printed, run_requests}
use eecs.Tools.IndexTools.Requests.{run_requests-Stores}
use eecs.Tests.{empty_file, blank, whole_times}
use eecs.Tests.Openings.{blank-IsConfig}
use eecs.Tests.Sessions.{requests}
use eecs.Tests.Trees.{
  info_of, tree_index, images, tree, tree-IsSearchTree, root_at_1, leaf_at_3, leaf_at_4, left_leaf,
  info_of-IsNode,
}

abbrev all_bytes : List ℕ
all_bytes = bytes_all images
  where
    bytes_all : List (ℕ × eecs.Block.Block ℕ) → List ℕ
    bytes_all [] = []
    bytes_all ((k, b) ∷ m) = b.bytes ++ bytes_all m

-- A disk of 5 blocks on one track.
abbrev stored_tree : Disk ℕ
stored_tree = record (blank 5 48) {
  blockspertrack = 5;
  numtracks = 1;
  datafile = written empty_file 4 all_bytes;
}

stored_tree-IsDisk : IsDisk stored_tree
stored_tree-IsDisk = record {
  positive = omega arith;
  numbered = omega arith;
  word = omega arith;
  fits = omega arith;
}

stored_tree-IsReady : IsReady stored_tree
unfolding sanity_check_config whole_times eecs.Prelude.Words.◌*W◌
stored_tree-IsReady =
    let c = blank-IsConfig 5 48 (omega arith) (omega arith) in
    record {
      config = record {
        diskfilestem = c.diskfilestem;
        offset = c.offset;
        numblocks = c.numblocks;
        blocksize = c.blocksize;
        numheads = c.numheads;
        blockspertrack = omega arith;
        numtracks = omega arith;
        averageseeklatency = c.averageseeklatency;
        trackseeklatency = c.trackseeklatency;
        rotationallatency = c.rotationallatency;
      };
      sane = refl;
      some_block = omega arith;
      bits = refl;
      room = omega arith;
    }

abbrev free_at_2 : Node
free_at_2 = record { info = info_of unallocated_block 0 0; bytes = none }

all_stored :
    Holds (init stored_tree 1) 0 tree_index.superblock
    × Holds (init stored_tree 1) 1 root_at_1
    × Holds (init stored_tree 1) 2 free_at_2
    × Holds (init stored_tree 1) 3 leaf_at_3
    × Holds (init stored_tree 1) 4 leaf_at_4
unfolding init decode_node eecs.Cache.Coherent.view eecs.BlockMap.find eecs.Disk.Blocks.stored
    eecs.File.window eecs.File.content eecs.File.overlay encode_info eecs.Bytes.encode_word
    eecs.Node.decode_info eecs.Bytes.decode_word eecs.Bytes.slice eecs.Prelude.Words.◌-W◌
all_stored = (refl, refl, refl, refl, refl)

left_stored : Shows (init stored_tree 1) 3 left_leaf
unfolding init Shows get_key get_ptr get_val eecs.Node.resolve_key eecs.Node.load
    eecs.Prelude.Words.◌*W◌ eecs.Prelude.Words.◌+W◌ eecs.Bytes.slice eecs.Node.resolve_val
left_stored = (omega arith, leaf_at_3, all_stored.3, refl, refl, (refl, refl, (refl, refl, tt)))

right_stored : Shows (init stored_tree 1) 4 (leaf ((6 ∷ 0 ∷ [], 7 ∷ 8 ∷ 9 ∷ []) ∷ []))
unfolding init Shows get_key get_ptr get_val eecs.Node.resolve_key eecs.Node.load
    eecs.Prelude.Words.◌*W◌ eecs.Prelude.Words.◌+W◌ eecs.Bytes.slice eecs.Node.resolve_val
right_stored = (omega arith, leaf_at_4, all_stored.4, refl, refl, (refl, refl, tt))

tree_stored : Shows (init stored_tree 1) 1 tree
unfolding init Shows get_key get_ptr get_val eecs.Node.resolve_key eecs.Node.resolve_ptr
    eecs.Node.load eecs.Bytes.slice eecs.Bytes.decode_word eecs.BTree.Scans.count_keys
tree_stored = (
  omega arith,
  root_at_1,
  all_stored.1,
  refl,
  refl,
  3,
  refl,
  left_stored,
  refl,
  (4, refl, right_stored),
)

free_stored : Chain (init stored_tree 1) 2 (2 ∷ [])
unfolding init Chain
free_stored = (refl, (λ e. omega arith), omega arith, free_at_2, all_stored.2, refl, refl)

stored_tree-Stores : Stores stored_tree (2 ∷ []) tree
stored_tree-Stores = record {
  ready = stored_tree-IsReady;
  disk = stored_tree-IsDisk;
  super = tree_index.superblock;
  fits = info_of-IsNode;
  holds = all_stored.0;
  listed = free_stored;
  shown = tree_stored;
}

run_requests-Stores_example :
    (dk' : Disk ℕ) × (room' : ℕ) × (run_requests ℕ 2
        (codes "d")
        requests
        (close_disk 100 stored_tree)
      ≡ ok (all_printed ℕ 2 tree requests, close_disk room' dk'))
    × Stores dk' (2 ∷ []) tree
unfolding eecs.BTree.Lookup.height
run_requests-Stores_example =
    run_requests-Stores 2 2 tree (omega arith) tree-IsSearchTree requests 100 (codes "d")
      (refl, (tt, (tt, (refl, (tt, (tt, tt)))))) stored_tree-Stores
