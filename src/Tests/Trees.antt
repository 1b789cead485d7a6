-- ===== src/Tests/Trees.antt =====
-- Tests of btree_lab/btree.cc and witnesses of the theorems on it: an index of 5 blocks of 48 bytes
-- whose root, in block 1, has the leaves in blocks 3 and 4; block 2 is free.
use eecs.Prelude.{
  ℕ, zero, suc, ◌+◌, ◌≤◌, ◌<◌, ◌≡◌, ◌≢◌, ◌∙◌, inl, inr, refl, Bool, true, false, Option, none, some,
  List, [], ◌∷◌, ◌++◌, length, replicate, arith,
}
use eecs.Block.{Block}
use eecs.BlockMap.{find}
use eecs.Disk.{Disk}
use eecs.Disk.Blocks.{IsDisk, SameShape}
use eecs.Cache.{Cache}
use eecs.Cache.Coherent.{IsCoherent, view}
use eecs.Outcome.{ok}
use eecs.Node.{
  Node, NodeMetadata, unallocated_block, superblock, root_node, leaf_node, encode_info, decode_node,
  get_key, get_ptr, get_val,
}
use eecs.Node.Codec.{IsInfo, IsNode}
use eecs.Node.Transfer.{Holds, Keeps}
use eecs.BTree.{Index, allocate_node, deallocate_node, attach, detach, lookup, found}
use eecs.BTree.FreeList.{Chain, IsIndex}
use eecs.BTree.Allocate.{Allocated, Relisted, allocate_node_lem, deallocate_node_lem}
use eecs.BTree.Attach.{rest_of_disk, attach-IsIndex}
use eecs.BTree.Reopen.{attach-detach}
use eecs.BTree.Tree.{Tree, leaf, bare, inner, last, IsSearchTree, entries, first_match}
use eecs.BTree.Scans.{Shows}
use eecs.BTree.Lookup.{lookup-entries}
use eecs.BTree.Display.{text, byte, Stream, btree_sorted_keyval, display}
use eecs.BTree.Printed.{listing}
use eecs.BTree.Listing.{display-entries}
use eecs.Tests.{blank, blank_cache, blank_cache-IsCoherent, whole_times}

abbrev pub info_of : ℕ → ℕ → ℕ → NodeMetadata
info_of type free keys = record {
  nodetype = type;
  keysize = 2;
  valuesize = 3;
  blocksize = 48;
  rootnode = 1;
  freelist = free;
  numkeys = keys;
}

-- A block with the metadata and the data, not yet on the disk.
abbrev image : NodeMetadata → List ℕ → Block ℕ
image info data_bytes = record {
  bytes = encode_info info ++ data_bytes;
  length = 48;
  lastaccessed = 0;
  dirty = true;
}

-- PTR KEY PTR
abbrev root_data : List ℕ
root_data = 3 ∷ 0 ∷ 0 ∷ 0 ∷ 5 ∷ 0 ∷ 4 ∷ 0 ∷ 0 ∷ 0 ∷ 0 ∷ 0 ∷ 0 ∷ 0 ∷ 0 ∷ 0 ∷ 0 ∷ 0 ∷ 0 ∷ 0 ∷ []

-- PTR KEY VALUE KEY VALUE
abbrev left_data : List ℕ
left_data = 0 ∷ 0 ∷ 0 ∷ 0 ∷ 1 ∷ 1 ∷ 1 ∷ 2 ∷ 3 ∷ 5 ∷ 0 ∷ 4 ∷ 5 ∷ 6 ∷ 0 ∷ 0 ∷ 0 ∷ 0 ∷ 0 ∷ 0 ∷ []

abbrev right_data : List ℕ
right_data = 0 ∷ 0 ∷ 0 ∷ 0 ∷ 6 ∷ 0 ∷ 7 ∷ 8 ∷ 9 ∷ 0 ∷ 0 ∷ 0 ∷ 0 ∷ 0 ∷ 0 ∷ 0 ∷ 0 ∷ 0 ∷ 0 ∷ 0 ∷ []

abbrev pub zero_data : List ℕ
zero_data = 0 ∷ 0 ∷ 0 ∷ 0 ∷ 0 ∷ 0 ∷ 0 ∷ 0 ∷ 0 ∷ 0 ∷ 0 ∷ 0 ∷ 0 ∷ 0 ∷ 0 ∷ 0 ∷ 0 ∷ 0 ∷ 0 ∷ 0 ∷ []

abbrev pub images : List (ℕ × Block ℕ)
images =
    (0, image (info_of superblock 2 0) zero_data)
    ∷ (1, image (info_of root_node 2 1) root_data)
    ∷ (2, image (info_of unallocated_block 0 0) zero_data)
    ∷ (3, image (info_of leaf_node 0 2) left_data)
    ∷ (4, image (info_of leaf_node 0 1) right_data)
    ∷ []

abbrev pub tree_cache : Cache ℕ
tree_cache = record (blank_cache (blank 5 48)) { cachesize = 8; blockmap = images }

abbrev pub tree_index : Index ℕ
tree_index = record {
  cache = tree_cache;
  superblock_index = 0;
  superblock = record { info = info_of superblock 2 0; bytes = none };
}

abbrev tree_disk : Disk ℕ
tree_disk = blank 5 48

pub tree_disk-IsDisk : IsDisk tree_disk
tree_disk-IsDisk = record {
  positive = omega arith;
  numbered = omega arith;
  word = omega arith;
  fits = omega arith;
}

pub tree_cache-IsCoherent : IsCoherent tree_cache
unfolding find encode_info eecs.Bytes.encode_word
tree_cache-IsCoherent = record {
  disk = tree_disk-IsDisk;
  sorted = (omega arith, (omega arith, (omega arith, (omega arith, tt))));
  cached = λ k b e. record {
    inside = ground (arith, e);
    size = ground (arith, e);
    clean = λ clean. ground (arith, e, clean);
  };
}

abbrev node_of : NodeMetadata → List ℕ → Node
node_of info data_bytes = record { info = info; bytes = some data_bytes }

abbrev pub root_at_1 : Node
root_at_1 = node_of (info_of root_node 2 1) root_data

abbrev pub leaf_at_3 : Node
leaf_at_3 = node_of (info_of leaf_node 0 2) left_data

abbrev pub leaf_at_4 : Node
leaf_at_4 = node_of (info_of leaf_node 0 1) right_data

info_of-IsInfo :
    (type free keys : ℕ) → type < 8 → free < 8 → keys < 8 → IsInfo (info_of type free keys)
info_of-IsInfo type free keys t f k = record {
  nodetype = omega arith;
  keysize = omega arith;
  valuesize = omega arith;
  blocksize = omega arith;
  rootnode = omega arith;
  freelist = omega arith;
  numkeys = omega arith;
}

pub info_of-IsNode : IsNode 48 tree_index.superblock
info_of-IsNode = record {
  info = info_of-IsInfo superblock 2 0 (omega arith) (omega arith) (omega arith);
  blocksize = refl;
  room = omega arith;
  held = inr (refl, refl);
}

leaf_at_4-IsNode : IsNode 48 leaf_at_4
leaf_at_4-IsNode = record {
  info = info_of-IsInfo leaf_node 0 1 (omega arith) (omega arith) (omega arith);
  blocksize = refl;
  room = omega arith;
  held = inl (refl, right_data, refl, refl);
}

all_hold :
    Holds tree_cache 1 root_at_1
    × Holds tree_cache 2 (record { info = info_of unallocated_block 0 0; bytes = none })
    × Holds tree_cache 3 leaf_at_3
    × Holds tree_cache 4 leaf_at_4
unfolding decode_node view find encode_info eecs.Bytes.encode_word eecs.Node.decode_info
    eecs.Bytes.decode_word eecs.Bytes.slice eecs.Prelude.Words.◌-W◌
all_hold = (refl, refl, refl, refl)

-- The tree of the index: keys up to (5, 0) on the left.
abbrev pub tree : Tree
tree =
    inner (leaf ((1 ∷ 1 ∷ [], 1 ∷ 2 ∷ 3 ∷ []) ∷ (5 ∷ 0 ∷ [], 4 ∷ 5 ∷ 6 ∷ []) ∷ [])) (5 ∷ 0 ∷ [])
      (last (leaf ((6 ∷ 0 ∷ [], 7 ∷ 8 ∷ 9 ∷ []) ∷ [])))

pub tree-IsSearchTree : IsSearchTree 2 tree
unfolding IsSearchTree entries eecs.Block.compare_bytes
tree-IsSearchTree = (
  (refl, tt, (refl, tt, tt)),
  (refl, tt, tt),
  (refl, (refl, refl, (refl, refl, tt)), (refl, refl, tt)),
)

abbrev pub left_leaf : Tree
left_leaf = leaf ((1 ∷ 1 ∷ [], 1 ∷ 2 ∷ 3 ∷ []) ∷ (5 ∷ 0 ∷ [], 4 ∷ 5 ∷ 6 ∷ []) ∷ [])

left_shown : Shows tree_cache 3 left_leaf
unfolding Shows get_key get_ptr get_val eecs.Node.resolve_key eecs.Node.load eecs.Prelude.Words.◌*W◌
    eecs.Prelude.Words.◌+W◌ eecs.Bytes.slice eecs.Node.resolve_val
left_shown = (omega arith, leaf_at_3, all_hold.2, refl, refl, (refl, refl, (refl, refl, tt)))

right_shown : Shows tree_cache 4 (leaf ((6 ∷ 0 ∷ [], 7 ∷ 8 ∷ 9 ∷ []) ∷ []))
unfolding Shows get_key get_ptr get_val eecs.Node.resolve_key eecs.Node.load eecs.Prelude.Words.◌*W◌
    eecs.Prelude.Words.◌+W◌ eecs.Bytes.slice eecs.Node.resolve_val
right_shown = (omega arith, leaf_at_4, all_hold.3, refl, refl, (refl, refl, tt))

pub tree_shown : Shows tree_cache 1 tree
unfolding Shows get_key get_ptr get_val eecs.Node.resolve_key eecs.Node.resolve_ptr eecs.Node.load
    eecs.Bytes.slice eecs.Bytes.decode_word eecs.BTree.Scans.count_keys
tree_shown = (
  omega arith,
  root_at_1,
  all_hold.0,
  refl,
  refl,
  3,
  refl,
  left_shown,
  refl,
  (4, refl, right_shown),
)

abbrev key_six : Block ℕ
key_six = record { bytes = 6 ∷ 0 ∷ []; length = 2; lastaccessed = 0; dirty = false }

lookup-entries_example :
    (x' : Index ℕ) × (lookup 2 key_six tree_index ≡ (ok (7 ∷ 8 ∷ 9 ∷ []), x'))
    × Keeps tree_cache x'.cache
    × (x'.superblock ≡ tree_index.superblock)
unfolding eecs.BTree.Lookup.height first_match entries eecs.Block.compare_bytes
lookup-entries_example =
    lookup-entries (record { size = refl; labelled = refl }) tree_index tree 2 (omega arith)
      tree_cache-IsCoherent tree-IsSearchTree tree_shown

-- The lines of the three pairs.
abbrev lines : Stream
lines =
    text "("
    ∷ byte 1
    ∷ byte 1
    ∷ text ","
    ∷ byte 1
    ∷ byte 2
    ∷ byte 3
    ∷ text ")\n"
    ∷ text "("
    ∷ byte 5
    ∷ byte 0
    ∷ text ","
    ∷ byte 4
    ∷ byte 5
    ∷ byte 6
    ∷ text ")\n"
    ∷ text "("
    ∷ byte 6
    ∷ byte 0
    ∷ text ","
    ∷ byte 7
    ∷ byte 8
    ∷ byte 9
    ∷ text ")\n"
    ∷ []

display-entries_example :
    (c' : Cache ℕ) × (display 2 btree_sorted_keyval tree_index []
      ≡ (ok tt, record { cache = c'; os = lines }))
    × Keeps tree_cache c'
unfolding eecs.BTree.Lookup.height entries listing
display-entries_example =
    display-entries tree_index tree 2 [] (omega arith) tree_cache-IsCoherent tree_shown

differ : (a b : ℕ) → a < b → b ≢ a
differ a b h e = omega arith

differ_up : (a b : ℕ) → a < b → a ≢ b
differ_up a b h e = omega arith

one_free : IsIndex tree_index (2 ∷ [])
unfolding Chain
one_free = record {
  coherent = tree_cache-IsCoherent;
  index = refl;
  inside = omega arith;
  fits = info_of-IsNode;
  listed = (refl, differ 0 2 (omega arith), omega arith, _, all_hold.1, refl, refl);
}

allocate_node_lem_example : Allocated tree_index (2 ∷ [])
allocate_node_lem_example = allocate_node_lem (2 ∷ []) one_free

deallocate_node_lem_example :
    (x' : Index ℕ) × (deallocate_node 4 tree_index ≡ (ok tt, x'))
    × Relisted tree_index (4 ∷ 2 ∷ []) (λ j. j ≡ 4) x'
deallocate_node_lem_example =
    deallocate_node_lem 4 (2 ∷ []) leaf_at_4 one_free (differ 0 4 (omega arith)) (omega arith)
      (differ_up 2 4 (omega arith), tt) all_hold.3 leaf_at_4-IsNode (differ 0 4 (omega arith))

attach-detach_example :
    (x1 : Index ℕ) × (x2 : Index ℕ) × (detach tree_index ≡ (ok tt, x1))
    × (attach 0 false (record { cache = x1.cache; superblock_index = 7; superblock = leaf_at_3 })
        ≡ (ok tt, x2))
    × (x2.superblock ≡ tree_index.superblock)
    × IsIndex x2 (2 ∷ [])
    × ((j : ℕ) → j ≢ 0 → view x2.cache j ≡ view tree_cache j)
attach-detach_example = attach-detach (2 ∷ []) leaf_at_3 7 one_free

-- An index object before Attach, over an empty disk.
abbrev pub unattached : Index ℕ
unattached = record {
  cache = blank_cache (blank 5 48);
  superblock_index = 0;
  superblock = record { info = info_of unallocated_block 0 0; bytes = none };
}

attach-IsIndex_example :
    (x' : Index ℕ) × (attach 0 true unattached ≡ (ok tt, x'))
    × IsIndex x' (rest_of_disk 5)
    × (x'.superblock.info.rootnode ≡ 1)
    × Shows x'.cache 1 bare
    × SameShape unattached.cache.disk x'.cache.disk
attach-IsIndex_example =
    attach-IsIndex unattached (blank_cache-IsCoherent (blank 5 48) tree_disk-IsDisk) (omega arith)
      (omega arith) (omega arith) (omega arith)
