-- ===== src/Scan.antt =====
-- The loops over the keys of one node in BTreeIndex::LookupOrUpdateInternal, btree_lab/btree.cc.
-- `n` counts the keys from `offset` to the end. A key is compared as a block that holds its bytes;
-- a comparison that reads outside a buffer is undefined.
use eecs.Prelude.{ℕ, zero, suc, Bool, true, false, Option, none, some, List, if◌then◌else◌}
use eecs.Error.{unimpl}
use eecs.Double.{Double}
use eecs.Block
use eecs.Block.{Block, of_text}
use eecs.Outcome.{Outcome, ok, err, crash, ◌>>=◌}
use eecs.Node.{Node, get_key, get_ptr, get_val}

pub data BTreeOp : Type 0 where
  btree_op_insert btree_op_delete btree_op_update btree_op_lookup : BTreeOp

-- The result of a comparison of two blocks.
abbrev pub defined : Option Bool → Outcome Bool
defined none = crash
defined (some b) = ok b

abbrev is_lookup : BTreeOp → Bool
is_lookup btree_op_lookup = true
is_lookup _ = false

abbrev pub update_or_get : Node → ℕ → BTreeOp → Outcome (Option (List ℕ))
update_or_get b offset op =
    if is_lookup op then (do v ← get_val b offset; ok (some v)) else err unimpl

module _ {ℓ} {D : Type ℓ} ⦃d : Double D⦄ where
  -- key < testkey || key == testkey
  abbrev pub le_key : Block D → List ℕ → Outcome Bool
  le_key key testkey = do
    less ← defined (Block.lt key (of_text testkey))
    if less then ok true else defined (Block.eq key (of_text testkey))

  -- The pointer to follow from an inner node, or `none` where no key is as large as `key`.
  unfoldable pub scan_inner : ℕ → ℕ → Node → Block D → Outcome (Option ℕ)
  scan_inner zero offset b key = ok none
  scan_inner (suc n) offset b key =
      let rest = scan_inner n (suc offset) b key in
      do
        testkey ← get_key b offset
        le ← le_key key testkey
        if le then (do ptr ← get_ptr b offset; ok (some ptr)) else rest

  -- The value that a leaf has for `key`, or `none`.
  unfoldable pub scan_leaf : ℕ → ℕ → Node → BTreeOp → Block D → Outcome (Option (List ℕ))
  scan_leaf zero offset b op key = ok none
  scan_leaf (suc n) offset b op key =
      let rest = scan_leaf n (suc offset) b op key in
      do
        testkey ← get_key b offset
        same ← defined (Block.eq (of_text testkey) key)
        if same then update_or_get b offset op else rest
