-- ===== src/Node/Print.antt =====
-- NodeMetadata::Print and BTreeNode::Print of btree_lab/btree_ds.cc. Where an accessor leaves its
-- result as it was, which Print does not look at, or fails an assert, the outcome is `crash`.
use eecs.Prelude.{ℕ, zero, suc, List, [], ◌++◌, ltb, ◌==◌, if◌then◌else◌}
use eecs.Double.{Double}
use eecs.Block.{of_text}
use eecs.Block.Hex.{print_block}
use eecs.Outcome.{Outcome, ok, err, crash, ◌>>=◌}
use eecs.Text.{codes, print_unsigned}
use eecs.Node.{
  NodeMetadata, Node, unallocated_block, superblock, root_node, interior_node, leaf_node, is_inner,
  has_data, get_key, get_ptr, get_val,
}

unfoldable pub type_name : ℕ → List ℕ
type_name t =
    if t == unallocated_block
    then codes "UNALLOCATED_BLOCK"
    else if t == superblock
    then codes "SUPERBLOCK"
    else if t == root_node
    then codes "ROOT_NODE"
    else if t == interior_node
    then codes "INTERIOR_NODE"
    else if t == leaf_node
    then codes "LEAF_NODE"
    else codes "UNKNOWN_TYPE"

unfoldable pub print_metadata : NodeMetadata → List ℕ
print_metadata info =
    codes "NodeMetaData(nodetype="
    ++ type_name info.nodetype
    ++ codes ", keysize="
    ++ print_unsigned info.keysize
    ++ codes ", valuesize="
    ++ print_unsigned info.valuesize
    ++ codes ", blocksize="
    ++ print_unsigned info.blocksize
    ++ codes ", rootnode="
    ++ print_unsigned info.rootnode
    ++ codes ", freelist="
    ++ print_unsigned info.freelist
    ++ codes ", numkeys="
    ++ print_unsigned info.numkeys
    ++ codes ")"

-- A call with its error code ignored.
abbrev filled {ℓ} : {A : Type ℓ} → Outcome A → Outcome A
filled (err e) = crash
filled o = o

module _ {ℓ} (D : Type ℓ) ⦃d : Double D⦄ where
  abbrev as_block : List ℕ → List ℕ
  as_block v = print_block {D = D} (of_text v)

  -- The loop over an inner node: `n` keys are left, from offset `i` on.
  unfoldable pub print_pointers : ℕ → ℕ → Node → Outcome (List ℕ)
  print_pointers zero i b = do ptr ← filled (get_ptr b i); ok (print_unsigned ptr)
  print_pointers (suc n) i b = do
    ptr ← filled (get_ptr b i)
    key ← filled (get_key b i)
    rest ← print_pointers n (suc i) b
    ok (print_unsigned ptr ++ codes ", " ++ as_block key ++ codes ", " ++ rest)

  abbrev separator : ℕ → List ℕ
  separator zero = []
  separator (suc i) = codes ", "

  -- The loop over a leaf.
  unfoldable pub print_pairs : ℕ → ℕ → Node → Outcome (List ℕ)
  print_pairs zero i b = ok []
  print_pairs (suc n) i b = do
    key ← filled (get_key b i)
    val ← filled (get_val b i)
    rest ← print_pairs n (suc i) b
    ok (separator i ++ as_block key ++ codes ", " ++ as_block val ++ rest)

  abbrev print_inner_data : Node → Outcome (List ℕ)
  print_inner_data b =
      let all = print_pointers b.info.numkeys 0 b in
      do
        pointers ← if ltb 0 b.info.numkeys then all else ok []
        ok (codes "pointers_and_values=(" ++ pointers ++ codes ")")

  abbrev print_leaf_data : Node → Outcome (List ℕ)
  print_leaf_data b = do
    pairs ← print_pairs b.info.numkeys 0 b
    ok (codes "keys_and_values=(" ++ pairs ++ codes ")")

  abbrev print_data : Node → Outcome (List ℕ)
  print_data b =
      if is_inner b.info.nodetype
      then print_inner_data b
      else if b.info.nodetype == leaf_node
      then print_leaf_data b
      else ok []

  unfoldable pub print_tree_node : Node → Outcome (List ℕ)
  print_tree_node b =
      let some_data = (do s ← print_data b; ok (codes ", " ++ s)) in
      do
        s ← if has_data b.info.nodetype then some_data else ok []
        ok (codes "BTreeNode(info=" ++ print_metadata b.info ++ s ++ codes ")")
