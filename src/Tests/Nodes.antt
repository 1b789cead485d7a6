-- ===== src/Tests/Nodes.antt =====
-- Tests of btree_lab/btree_ds.cc and witnesses of the theorems on it: nodes in blocks of 48 bytes,
-- with keys of 2 bytes and values of 3.
use eecs.Prelude.{
  ℕ, ◌+◌, ◌*◌, ◌≤◌, ◌<◌, ◌≡◌, ◌≢◌, inl, inr, refl, true, false, none, some, List, [], ◌∷◌, length,
  replicate, arith,
}
use eecs.Disk.{Disk}
use eecs.Disk.Blocks.{IsDisk}
use eecs.Outcome.{ok}
use eecs.Node.{
  Node, NodeMetadata, root_node, leaf_node, get_key, get_ptr, get_key_val, set_key, set_ptr,
  set_key_val, serialize, unserialize, get_num_slots_as_interior,
}
use eecs.Node.Layout.{IsInner, IsLeaf}
use eecs.Node.Inner.{set_key_inner_reads, set_ptr_inner_reads}
use eecs.Node.Leaf.{set_key_val_reads}
use eecs.Node.Codec.{IsInfo, IsNode}
use eecs.Node.Transfer.{unserialize-serialize}
use eecs.Node.Room.{slots-IsInner}
use eecs.Tests.{blank, blank_cache, blank_cache-IsCoherent, whole_times}

abbrev info_with : ℕ → ℕ → NodeMetadata
info_with type keys = record {
  nodetype = type;
  keysize = 2;
  valuesize = 3;
  blocksize = 48;
  rootnode = 1;
  freelist = 2;
  numkeys = keys;
}

abbrev twenty : List ℕ
twenty = 0 ∷ 0 ∷ 0 ∷ 0 ∷ 0 ∷ 0 ∷ 0 ∷ 0 ∷ 0 ∷ 0 ∷ 0 ∷ 0 ∷ 0 ∷ 0 ∷ 0 ∷ 0 ∷ 0 ∷ 0 ∷ 0 ∷ 0 ∷ []

-- An inner node of two keys, and a leaf of two pairs.
abbrev inner_node : Node
inner_node = record { info = info_with root_node 2; bytes = some twenty }

abbrev leaf_of_two : Node
leaf_of_two = record { info = info_with leaf_node 2; bytes = some twenty }

info_with-IsInfo : (type keys : ℕ) → type < 8 → keys < 8 → IsInfo (info_with type keys)
info_with-IsInfo type keys t k = record {
  nodetype = omega arith;
  keysize = omega arith;
  valuesize = omega arith;
  blocksize = omega arith;
  rootnode = omega arith;
  freelist = omega arith;
  numkeys = omega arith;
}

inner_node-IsInner : IsInner inner_node twenty
inner_node-IsInner = record { type = refl; held = refl; room = omega arith; word = omega arith }

leaf_of_two-IsLeaf : IsLeaf leaf_of_two twenty
leaf_of_two-IsLeaf = record {
  type = refl;
  held = refl;
  room = omega arith;
  word = omega arith;
  pair_word = omega arith;
}

inner_node-IsNode : IsNode 48 inner_node
inner_node-IsNode = record {
  info = info_with-IsInfo root_node 2 (omega arith) (omega arith);
  blocksize = refl;
  room = omega arith;
  held = inl (refl, twenty, refl, refl);
}

leaf_of_two-IsNode : IsNode 48 leaf_of_two
leaf_of_two-IsNode = record {
  info = info_with-IsInfo leaf_node 2 (omega arith) (omega arith);
  blocksize = refl;
  room = omega arith;
  held = inl (refl, twenty, refl, refl);
}

set_key_inner_reads_example :
    (b' : Node) × (set_key inner_node 1 (7 ∷ 8 ∷ []) ≡ ok b')
    × (b'.info ≡ inner_node.info)
    × (get_key b' 1 ≡ ok (7 ∷ 8 ∷ []))
    × ((j : ℕ) → j < 2 → j ≢ 1 → get_key b' j ≡ get_key inner_node j)
    × ((j : ℕ) → j ≤ 2 → get_ptr b' j ≡ get_ptr inner_node j)
set_key_inner_reads_example =
    set_key_inner_reads inner_node-IsInner 1 (7 ∷ 8 ∷ []) (omega arith) refl

set_ptr_inner_reads_example :
    (b' : Node) × (set_ptr inner_node 2 70000 ≡ ok b')
    × (b'.info ≡ inner_node.info)
    × (get_ptr b' 2 ≡ ok 70000)
    × ((j : ℕ) → j ≤ 2 → j ≢ 2 → get_ptr b' j ≡ get_ptr inner_node j)
    × ((j : ℕ) → j < 2 → get_key b' j ≡ get_key inner_node j)
set_ptr_inner_reads_example =
    set_ptr_inner_reads inner_node-IsInner 2 70000 (omega arith) (omega arith)

set_key_val_reads_example :
    (b' : Node) × (set_key_val leaf_of_two 1 (7 ∷ 8 ∷ [], 1 ∷ 2 ∷ 3 ∷ []) ≡ ok b')
    × (b'.info ≡ leaf_of_two.info)
    × (get_key_val b' 1 ≡ ok (7 ∷ 8 ∷ [], 1 ∷ 2 ∷ 3 ∷ []))
    × ((j : ℕ) → j < 2 → j ≢ 1 → get_key_val b' j ≡ get_key_val leaf_of_two j)
set_key_val_reads_example =
    set_key_val_reads leaf_of_two-IsLeaf 1 (7 ∷ 8 ∷ []) (1 ∷ 2 ∷ 3 ∷ []) (omega arith) refl refl

abbrev node_disk : Disk ℕ
node_disk = blank 4 48

node_disk-IsDisk : IsDisk node_disk
node_disk-IsDisk = record {
  positive = omega arith;
  numbered = omega arith;
  word = omega arith;
  fits = omega arith;
}

unserialize-serialize_example :
    (unserialize 3 (serialize inner_node 3 (blank_cache (blank 4 48))).1).0 ≡ ok inner_node
unserialize-serialize_example =
    unserialize-serialize 3 inner_node (blank_cache-IsCoherent (blank 4 48) node_disk-IsDisk)
      (omega arith) inner_node-IsNode

slots-IsInner_example : IsInner inner_node twenty
unfolding get_num_slots_as_interior eecs.Prelude.Words.◌-W◌
slots-IsInner_example =
    slots-IsInner inner_node-IsNode (omega arith) twenty refl refl refl (omega arith)
