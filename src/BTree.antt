-- ===== src/BTree.antt =====
-- class BTreeIndex of btree_lab/btree.h and btree_lab/btree.cc: the index in its blocks. The state
-- is the object's, with the buffer cache that it points to. An error code that the source does not
-- look at is ignored here too; where it goes on with a node that it failed to read, whose fields
-- are indeterminate, the outcome is `crash`, as at a failed assert.
pub mod FreeList
pub mod Allocate
pub mod FreeNodes
pub mod Attach
pub mod Reopen
pub mod Accounts
pub mod History
pub mod Tree
pub mod Scans
pub mod Lookup
pub mod Display
pub mod Printed
pub mod Listing
pub mod Same
use eecs.Prelude.{
  ℕ, zero, suc, ◌-◌, Bool, true, false, not, Option, none, some, List, ◌==◌, ltb, if◌then◌else◌,
}
use eecs.Error.{nospace, nonexistent, insane, unimpl}
use eecs.Double.{Double}
use eecs.Block.{Block}
use eecs.Cache
use eecs.Cache.{Cache}
use eecs.Outcome.{Outcome, ok, err, crash, assert}
use eecs.Outcome.Exec.{lift, gets, modify, after, ◌>>=◌, ◌>>◌}
use eecs.Node.{
  Node, unallocated_block, superblock, root_node, leaf_node, is_inner, make, get_ptr, serialize,
  unserialize,
}
use eecs.Scan.{BTreeOp, btree_op_lookup, scan_inner, scan_leaf}

pub record Index {ℓ} (D : Type ℓ) : Type ℓ where
  pub cache : Cache D
  pub superblock_index : ℕ
  pub superblock : Node

abbrev pub set_freelist : ℕ → Node → Node
set_freelist n b = record b { info = record b.info { freelist = n } }

abbrev pub set_nodetype : ℕ → Node → Node
set_nodetype t b = record b { info = record b.info { nodetype = t } }

abbrev pub set_links : ℕ → ℕ → Node → Node
set_links root free b = record b { info = record b.info { rootnode = root; freelist = free } }

-- A node read with its error code ignored, which the caller then looks into.
abbrev must : {A : Type 0} → Outcome A → Outcome A
must (err e) = crash
must o = o

-- A call with its error code ignored. A failed assert ends the process.
abbrev unchecked : Outcome (Unit {0}) → Outcome (Unit {0})
unchecked (err e) = ok tt
unchecked o = o

module _ {ℓ} {D : Type ℓ} where
  -- BTreeIndex(keysize, valuesize, cache); superblock_index is indeterminate.
  unfoldable pub new_index : ℕ → ℕ → Cache D → Index D
  new_index keysize valuesize c = record {
    cache = c;
    superblock_index = 0;
    superblock = make unallocated_block keysize valuesize 0;
  }

  abbrev pub on_cache :
      {A : Type 0} → (Cache D → Outcome A × Cache D) → Index D → Outcome A × Index D
  on_cache m x = let (o, c) = m x.cache in (o, record x { cache = c })

  abbrev pub with_superblock : (Node → Node) → Index D → Index D
  with_superblock f x = record x { superblock = f x.superblock }

abbrev pub found : Option (List ℕ) → Outcome (List ℕ)
found none = err nonexistent
found (some v) = ok v

-- The pointer after the last key, where the node has a key.
abbrev last_ptr : Node → Outcome ℕ
last_ptr b = if ltb 0 b.info.numkeys then get_ptr b b.info.numkeys else err nonexistent

abbrev pub next_ptr : Node → Option ℕ → Outcome ℕ
next_ptr b none = last_ptr b
next_ptr b (some ptr) = ok ptr

module _ {ℓ} {D : Type ℓ} ⦃d : Double D⦄ where
  abbrev read_anyhow : ℕ → Cache D → Outcome Node × Cache D
  read_anyhow k c = let (o, c') = unserialize k c in (must o, c')

  abbrev write_anyhow : Node → ℕ → Cache D → Outcome (Unit {0}) × Cache D
  write_anyhow b k c = let (o, c') = serialize b k c in (unchecked o, c')

  abbrev allocated : ℕ → Cache D → Outcome (Unit {0}) × Cache D
  allocated k c = (ok tt, (Cache.notify_allocate_block c k).0)

  abbrev deallocated : ℕ → Cache D → Outcome (Unit {0}) × Cache D
  deallocated k c = (ok tt, (Cache.notify_deallocate_block c k).0)

  -- superblock.Serialize(buffercache, superblock_index)
  abbrev save_superblock : Index D → Outcome (Unit {0}) × Index D
  save_superblock x = on_cache (write_anyhow x.superblock x.superblock_index) x

  abbrev take_free : ℕ → Index D → Outcome ℕ × Index D
  take_free n = do
    node ← on_cache (read_anyhow n)
    lift (assert (node.info.nodetype == unallocated_block))
    modify (with_superblock (set_freelist node.info.freelist))
    save_superblock
    on_cache (allocated n)
    lift (ok n)

  -- BTreeIndex::AllocateNode
  unfoldable pub allocate_node : Index D → Outcome ℕ × Index D
  allocate_node x =
      let n = x.superblock.info.freelist in if n == 0 then (err nospace, x) else take_free n x

  -- BTreeIndex::DeallocateNode
  unfoldable pub deallocate_node : ℕ → Index D → Outcome (Unit {0}) × Index D
  deallocate_node n = do
    node ← on_cache (read_anyhow n)
    lift (assert (not (node.info.nodetype == unallocated_block)))
    freelist ← gets (λ x. x.superblock.info.freelist)
    on_cache (write_anyhow (set_freelist freelist (set_nodetype unallocated_block node)) n)
    modify (with_superblock (set_freelist n))
    save_superblock
    on_cache (deallocated n)

  -- The loop of Attach that writes the free nodes: `n` are left, from block `i` on.
  unfoldable pub write_free_nodes : ℕ → ℕ → ℕ → ℕ → Cache D → Outcome (Unit {0}) × Cache D
  write_free_nodes zero i keysize valuesize c = (ok tt, c)
  write_free_nodes (suc n) i keysize valuesize c =
      let next = if suc i == Cache.get_num_blocks c then 0 else suc i in
      let b = make unallocated_block keysize valuesize (Cache.get_block_size c) in
      after (serialize (set_links 1 next b) i c) (λ _. write_free_nodes n (suc i) keysize valuesize)

  -- What Attach does to make a new index: the superblock, the root and the free nodes.
  unfoldable pub create_index : ℕ → ℕ → Cache D → Outcome (Unit {0}) × Cache D
  create_index keysize valuesize = do
    size ← gets Cache.get_block_size
    allocated 0
    serialize (set_links 1 2 (make superblock keysize valuesize size)) 0
    allocated 1
    serialize (set_links 1 2 (make root_node keysize valuesize size)) 1
    count ← gets Cache.get_num_blocks
    write_free_nodes (count - 2) 2 keysize valuesize

  abbrev pub create_if : Bool → Index D → Outcome (Unit {0}) × Index D
  create_if false x = (ok tt, x)
  create_if true x = on_cache (create_index x.superblock.info.keysize x.superblock.info.valuesize) x

  -- BTreeIndex::Attach
  unfoldable pub attach : ℕ → Bool → Index D → Outcome (Unit {0}) × Index D
  attach initblock create = do
    modify (λ x. record x { superblock_index = initblock })
    lift (assert (initblock == 0))
    create_if create
    b ← on_cache (unserialize initblock)
    modify (with_superblock (λ _. b))

  -- BTreeIndex::Detach, which sets no `initblock`
  unfoldable pub detach : Index D → Outcome (Unit {0}) × Index D
  detach x = on_cache (serialize x.superblock x.superblock_index) x

  -- The switch on the type of node; `follow` is the recursive call.
  abbrev pub search_node :
      (ℕ → Cache D → Outcome (List ℕ) × Cache D)
      → Node
      → BTreeOp
      → Block D
      → Cache D
      → Outcome (List ℕ) × Cache D
  search_node follow b op key =
      let inner = (do
        ptr ← lift (scan_inner b.info.numkeys 0 b key)
        next ← lift (next_ptr b ptr)
        follow next) in
      let leaf = (do v ← lift (scan_leaf b.info.numkeys 0 b op key); lift (found v)) in
      if is_inner b.info.nodetype
      then inner
      else (if b.info.nodetype == leaf_node then leaf else lift (err insane))

  -- BTreeIndex::LookupOrUpdateInternal: `fuel` bounds the depth of the recursion, whose end in the
  -- source is that of the stack.
  unfoldable pub lookup_or_update_internal :
      ℕ → ℕ → BTreeOp → Block D → Cache D → Outcome (List ℕ) × Cache D
  lookup_or_update_internal zero node op key = lift crash
  lookup_or_update_internal (suc fuel) node op key = do
    b ← unserialize node
    search_node (λ next. lookup_or_update_internal fuel next op key) b op key

  -- BTreeIndex::Lookup
  unfoldable pub lookup : ℕ → Block D → Index D → Outcome (List ℕ) × Index D
  lookup fuel key x =
      on_cache (lookup_or_update_internal fuel x.superblock.info.rootnode btree_op_lookup key) x

-- BTreeIndex::Update, Delete and SanityCheck
unfoldable pub update : List ℕ → List ℕ → Outcome (Unit {0})
update key value = err unimpl

unfoldable pub delete : List ℕ → Outcome (Unit {0})
delete key = err unimpl

unfoldable pub sanity_check : Outcome (Unit {0})
sanity_check = err unimpl
