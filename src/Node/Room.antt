-- ===== src/Node/Room.antt =====
-- GetNumSlotsAsInterior and GetNumSlotsAsLeaf of btree_lab/btree_ds.cc: nodes with no more keys
-- than slots.
use eecs.Prelude.{ℕ, ◌+◌, ◌-◌, ◌*◌, ◌/◌, ◌%◌, ◌≤◌, ◌<◌, ◌≡◌, true, some, List, length, arith}
use native.Mathlib.Nat.{mod-le, mul-le-mul_right, div-mul-le_self}
use eecs.Prelude.Words.{size_mod, +W-eq}
use eecs.Node.{
  Node, metadata_size, ptr_size, sub_size_t, get_num_data_bytes, get_num_slots_as_interior,
  get_num_slots_as_leaf, is_inner, leaf_node,
}
use eecs.Node.Layout.{IsInner, IsLeaf}
use eecs.Node.Codec.{IsNode, num_data_bytes}

slots_fit :
    (n step keys : ℕ)
    → ptr_size ≤ n
    → n < size_mod
    → keys ≤ sub_size_t n ptr_size / step % size_mod
    → keys * step + ptr_size ≤ n
slots_fit n step keys room word h =
    let slots = sub_size_t n ptr_size / step in
    let same : sub_size_t n ptr_size ≡ n - ptr_size = omega arith in
    let below : keys ≤ slots = omega (arith, mod-le slots size_mod) in
    omega (arith, mul-le-mul_right step below, div-mul-le_self (sub_size_t n ptr_size) step, same)

module _ {size : ℕ} {b : Node} (h : IsNode size b) (room : metadata_size + ptr_size ≤ size)
    (bs : List ℕ) (held : b.bytes ≡ some bs) (len : length bs + metadata_size ≡ size) where
  length_lem : length bs ≡ get_num_data_bytes b.info
  length_lem = omega (arith, num_data_bytes h)

  data_word : get_num_data_bytes b.info < size_mod
  data_word = omega (arith, num_data_bytes h, h.blocksize, h.info.blocksize)

  -- An inner node that fits its block, which has room for the metadata and one pointer, has room
  -- for its keys and pointers, if it has no more keys than GetNumSlotsAsInterior says.
  pub slots-IsInner :
      is_inner b.info.nodetype ≡ true
      → b.info.numkeys ≤ get_num_slots_as_interior b.info
      → IsInner b bs
  unfolding get_num_slots_as_interior
  slots-IsInner type few =
      let fit =
        slots_fit (get_num_data_bytes b.info) (b.info.keysize + ptr_size) b.info.numkeys
          (omega (arith, num_data_bytes h)) data_word few in
      let turned : b.info.numkeys * (ptr_size + b.info.keysize)
          ≡ b.info.numkeys * (b.info.keysize + ptr_size) =
        omega arith in
      record {
        type = type;
        held = held;
        room = omega (arith, fit, turned, length_lem);
        word = omega (arith, length_lem, data_word);
      }

  -- A leaf that fits its block, which has room for the metadata and one pointer, has room for its
  -- pairs, if the sizes of a key and a value add up to a word and it has no more keys than
  -- GetNumSlotsAsLeaf says.
  pub slots-IsLeaf :
      b.info.nodetype ≡ leaf_node
      → b.info.keysize + b.info.valuesize < size_mod
      → b.info.numkeys ≤ get_num_slots_as_leaf b.info
      → IsLeaf b bs
  unfolding get_num_slots_as_leaf
  slots-IsLeaf type pair_word few =
      let sum = +W-eq b.info.keysize b.info.valuesize pair_word in
      let fit =
        slots_fit (get_num_data_bytes b.info) (b.info.keysize + b.info.valuesize) b.info.numkeys
          (omega (arith, num_data_bytes h)) data_word (rw (← sum) few) in
      record {
        type = type;
        held = held;
        room = omega (arith, fit, length_lem);
        word = omega (arith, length_lem, data_word);
        pair_word = pair_word;
      }
