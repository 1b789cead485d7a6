-- ===== src/Node.antt =====
-- NodeMetadata and BTreeNode of btree_lab/btree_ds.h and btree_lab/btree_ds.cc: the layout of a
-- node in its block, the accessors, and the transfer through the buffer cache. An `int` or a
-- `SIZE_T` is 32 bits, a `size_t` 64, and the metadata have no padding: 28 bytes. Keys and values
-- are the bytes of their blocks, where the source resizes the block that it fills.
pub mod Layout
pub mod Inner
pub mod Leaf
pub mod Codec
pub mod Transfer
pub mod Room
pub mod Print
use eecs.Prelude.{
  ℕ, zero, suc, ◌+◌, ◌-◌, ◌*◌, ◌/◌, ◌%◌, ◌^◌, Bool, true, false, not, ◌&&◌, ◌||◌, Option, none,
  some, List, [], ◌∷◌, ◌++◌, length, take, drop, replicate, ltb, leb, ◌==◌, if◌then◌else◌,
}
use eecs.Prelude.Words.{◌+W◌, ◌-W◌, ◌*W◌, size_mod}
use eecs.Error.{Error, no_error, nomem}
use eecs.Double.{Double}
use eecs.Block.{Block, empty, with_size}
use eecs.Cache
use eecs.Cache.{Cache}
use eecs.Bytes.{slice, splice, encode_word, decode_word}
use eecs.Outcome.{Outcome, ok, err, crash, assert, ◌>>=◌, ◌>>◌}

-- The types of nodes.
abbrev pub unallocated_block : ℕ
unallocated_block = 0

abbrev pub superblock : ℕ
superblock = 1

abbrev pub root_node : ℕ
root_node = 2

abbrev pub interior_node : ℕ
interior_node = 3

abbrev pub leaf_node : ℕ
leaf_node = 4

pub record NodeMetadata : Type 0 where
  pub nodetype : ℕ
  pub keysize : ℕ
  pub valuesize : ℕ
  pub blocksize : ℕ
  pub rootnode : ℕ
  pub freelist : ℕ
  pub numkeys : ℕ

-- sizeof(NodeMetadata) and sizeof(SIZE_T)
abbrev pub metadata_size : ℕ
metadata_size = 28

abbrev pub ptr_size : ℕ
ptr_size = 4

-- a - b on `size_t`
abbrev pub sub_size_t : ℕ → ℕ → ℕ
sub_size_t a b = (a + 2 ^ 64 - b) % 2 ^ 64

abbrev pub get_num_data_bytes : NodeMetadata → ℕ
get_num_data_bytes info = info.blocksize -W metadata_size

-- Divided by a sum of at least 4, which has no wrap-around in 64 bits.
unfoldable pub get_num_slots_as_interior : NodeMetadata → ℕ
get_num_slots_as_interior info =
    sub_size_t (get_num_data_bytes info) ptr_size / (info.keysize + ptr_size) % size_mod

-- A zero divisor, which stops the process, gives 0 here.
unfoldable pub get_num_slots_as_leaf : NodeMetadata → ℕ
get_num_slots_as_leaf info =
    sub_size_t (get_num_data_bytes info) ptr_size / (info.keysize +W info.valuesize) % size_mod

-- `bytes` is `data`, or `none` where that is null.
pub record Node : Type 0 where
  pub info : NodeMetadata
  pub bytes : Option (List ℕ)

abbrev pub is_inner : ℕ → Bool
is_inner t = t == interior_node || t == root_node

-- nodetype!=BTREE_UNALLOCATED_BLOCK && nodetype!=BTREE_SUPERBLOCK
abbrev pub has_data : ℕ → Bool
has_data t = not (t == unallocated_block) && not (t == superblock)

-- BTreeNode(int node_type, SIZE_T key_size, SIZE_T value_size, SIZE_T block_size)
unfoldable pub make : ℕ → ℕ → ℕ → ℕ → Node
make node_type key_size value_size block_size =
    let info : NodeMetadata = record {
      nodetype = node_type;
      keysize = key_size;
      valuesize = value_size;
      blocksize = block_size;
      rootnode = 0;
      freelist = 0;
      numkeys = 0;
    } in
    record {
      info = info;
      bytes = if has_data node_type then some (replicate (get_num_data_bytes info) 0) else none;
    }

-- The distance from one key to the next in an inner node, on `size_t`; in a leaf, on `SIZE_T`.
abbrev pub inner_at : Node → ℕ → ℕ
inner_at b offset = offset * (ptr_size + b.info.keysize) % 2 ^ 64

abbrev pub leaf_at : Node → ℕ → ℕ
leaf_at b offset = offset *W (b.info.keysize +W b.info.valuesize)

-- A pointer into `data` is its offset there; `none` is the null pointer.
unfoldable pub resolve_key : Node → ℕ → Outcome (Option ℕ)
resolve_key b offset =
    if is_inner b.info.nodetype
    then (do assert (ltb offset b.info.numkeys); ok (some (ptr_size + inner_at b offset)))
    else if b.info.nodetype == leaf_node
    then (do assert (ltb offset b.info.numkeys); ok (some (ptr_size + leaf_at b offset)))
    else ok none

unfoldable pub resolve_ptr : Node → ℕ → Outcome (Option ℕ)
resolve_ptr b offset =
    if is_inner b.info.nodetype
    then (do assert (leb offset b.info.numkeys); ok (some (inner_at b offset)))
    else if b.info.nodetype == leaf_node
    then (do assert (offset == 0); ok (some 0))
    else ok none

unfoldable pub resolve_val : Node → ℕ → Outcome (Option ℕ)
resolve_val b offset =
    if b.info.nodetype == leaf_node
    then (do
      assert (ltb offset b.info.numkeys)
      ok (some (ptr_size + leaf_at b offset + b.info.keysize)))
    else ok none

unfoldable pub resolve_key_val : Node → ℕ → Outcome (Option ℕ)
resolve_key_val = resolve_key

-- memcpy(…, p, n) and memcpy(p, …, n), which the source makes unless p is null. Outside `data`,
-- and from a source with fewer bytes, the access is undefined.
unfoldable pub load : Node → ℕ → Option ℕ → Outcome (List ℕ)
load b n none = err nomem
load b n (some p) = elim b.bytes [
  | none ↦ crash
  | some bs ↦ if leb (p + n) (length bs) then ok (slice p n bs) else crash
]

unfoldable pub store : Node → ℕ → List ℕ → Option ℕ → Outcome Node
store b n v none = err nomem
store b n v (some p) = elim b.bytes [
  | none ↦ crash
  | some bs ↦
      if leb (p + n) (length bs) && leb n (length v)
      then ok (record b { bytes = some (splice p (take n v) bs) })
      else crash
]

unfoldable pub get_key : Node → ℕ → Outcome (List ℕ)
get_key b offset = do p ← resolve_key b offset; load b b.info.keysize p

unfoldable pub get_ptr : Node → ℕ → Outcome ℕ
get_ptr b offset = do p ← resolve_ptr b offset; w ← load b ptr_size p; ok (decode_word w)

unfoldable pub get_val : Node → ℕ → Outcome (List ℕ)
get_val b offset = do p ← resolve_val b offset; load b b.info.valuesize p

unfoldable pub get_key_val : Node → ℕ → Outcome (List ℕ × List ℕ)
get_key_val b offset = do k ← get_key b offset; v ← get_val b offset; ok (k, v)

unfoldable pub set_key : Node → ℕ → List ℕ → Outcome Node
set_key b offset k = do p ← resolve_key b offset; store b b.info.keysize k p

unfoldable pub set_ptr : Node → ℕ → ℕ → Outcome Node
set_ptr b offset ptr = do p ← resolve_ptr b offset; store b ptr_size (encode_word ptr) p

unfoldable pub set_val : Node → ℕ → List ℕ → Outcome Node
set_val b offset v = do p ← resolve_val b offset; store b b.info.valuesize v p

unfoldable pub set_key_val : Node → ℕ → List ℕ × List ℕ → Outcome Node
set_key_val b offset (k, v) = do b' ← set_key b offset k; set_val b' offset v

-- memcpy of the metadata to and from a block
unfoldable pub encode_info : NodeMetadata → List ℕ
encode_info info =
    encode_word info.nodetype
    ++ encode_word info.keysize
    ++ encode_word info.valuesize
    ++ encode_word info.blocksize
    ++ encode_word info.rootnode
    ++ encode_word info.freelist
    ++ encode_word info.numkeys

unfoldable pub decode_info : List ℕ → NodeMetadata
decode_info bs = record {
  nodetype = decode_word (slice 0 4 bs);
  keysize = decode_word (slice 4 4 bs);
  valuesize = decode_word (slice 8 4 bs);
  blocksize = decode_word (slice 12 4 bs);
  rootnode = decode_word (slice 16 4 bs);
  freelist = decode_word (slice 20 4 bs);
  numkeys = decode_word (slice 24 4 bs);
}

-- The block that Serialize writes. Of a node with no data the rest of the block is indeterminate in
-- the source, and zero here.
unfoldable pub encode_node : Node → Outcome (List ℕ)
encode_node b =
    let n = get_num_data_bytes b.info in
    if has_data b.info.nodetype
    then elim b.bytes [
      | none ↦ crash
      | some bs ↦ if leb n (length bs) then ok (encode_info b.info ++ take n bs) else crash
    ]
    else ok (encode_info b.info ++ replicate n 0)

-- What Unserialize makes of a block, where the disk has blocks of `size` bytes.
unfoldable pub decode_node : ℕ → List ℕ → Outcome Node
decode_node size bs =
    let info = decode_info bs in
    let n = get_num_data_bytes info in
    let held = (do
      assert (leb (metadata_size + n) (length bs))
      ok (some (slice metadata_size n bs))) in
    do
      assert (leb metadata_size (length bs))
      assert (size == info.blocksize)
      data_bytes ← if has_data info.nodetype then held else ok none
      ok (record { info = info; bytes = data_bytes })

abbrev code : Error → Outcome (Unit {0})
code no_error = ok tt
code e = err e

module _ {ℓ} {D : Type ℓ} ⦃d : Double D⦄ where
  abbrev pub wrote : Cache D × Error → Outcome (Unit {0}) × Cache D
  wrote (c, rc) = (code rc, c)

  abbrev pub write_encoded : Outcome (List ℕ) → ℕ → Cache D → Outcome (Unit {0}) × Cache D
  write_encoded (ok bs) k c =
      wrote (Cache.write_block c k (record (with_size (length bs)) { bytes = bs }))
  write_encoded (err e) k c = (err e, c)
  write_encoded crash k c = (crash, c)

  -- BTreeNode::Serialize
  unfoldable pub serialize : Node → ℕ → Cache D → Outcome (Unit {0}) × Cache D
  serialize b k c =
      if b.info.blocksize == Cache.get_block_size c
      then write_encoded (encode_node b) k c
      else (crash, c)

  -- BTreeNode::Unserialize: the node that it fills, if no error code is returned
  unfoldable pub unserialize : ℕ → Cache D → Outcome Node × Cache D
  unserialize k c =
      let r = Cache.read_block c k empty in
      ((do code r.rc; decode_node (Cache.get_block_size r.cache) r.outblock.bytes), r.cache)
