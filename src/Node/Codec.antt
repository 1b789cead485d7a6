-- ===== src/Node/Codec.antt =====
-- The block that Serialize writes and the node that Unserialize makes of it.
use eecs.Prelude.{
  ℕ, ◌+◌, ◌≤◌, ◌≡◌, ◌⊎◌, inl, inr, refl, ◌∙◌, true, false, none, some, List, ◌++◌, length, take,
  replicate, length-append, length-replicate, take_of_length-le, leb, ◌==◌, arith,
}
use eecs.Prelude.Words.{IsWord, -W-eq}
use eecs.Bytes.{slice, encode_word}
use eecs.Bytes.Laws.{decode_word-encode_word}
use eecs.Outcome.{ok}
use eecs.Node.{
  Node, NodeMetadata, metadata_size, get_num_data_bytes, has_data, encode_info, decode_info,
  encode_node, decode_node,
}

-- Every field is a 32-bit word.
pub record IsInfo (info : NodeMetadata) : Type 0 where
  pub nodetype : IsWord info.nodetype
  pub keysize : IsWord info.keysize
  pub valuesize : IsWord info.valuesize
  pub blocksize : IsWord info.blocksize
  pub rootnode : IsWord info.rootnode
  pub freelist : IsWord info.freelist
  pub numkeys : IsWord info.numkeys

decode_info-encode_info :
    (info : NodeMetadata) (rest : List ℕ)
    → IsInfo info
    → decode_info (encode_info info ++ rest) ≡ info
unfolding decode_info encode_info slice encode_word
decode_info-encode_info info rest h = rw (
  decode_word-encode_word info.nodetype h.nodetype,
  decode_word-encode_word info.keysize h.keysize,
  decode_word-encode_word info.valuesize h.valuesize,
  decode_word-encode_word info.blocksize h.blocksize,
  decode_word-encode_word info.rootnode h.rootnode,
  decode_word-encode_word info.freelist h.freelist,
  decode_word-encode_word info.numkeys h.numkeys,
)

length-encode_info : (info : NodeMetadata) → length (encode_info info) ≡ 28
unfolding encode_info encode_word
length-encode_info info = refl

slice-encode_info :
    (info : NodeMetadata) (n : ℕ) (rest : List ℕ)
    → slice 28 n (encode_info info ++ rest) ≡ take n rest
unfolding encode_info encode_word slice
slice-encode_info info n rest = refl

-- A node of a disk with blocks of `size` bytes: its data are what its type wants.
pub record IsNode (size : ℕ) (b : Node) : Type 0 where
  pub info : IsInfo b.info
  pub blocksize : b.info.blocksize ≡ size
  pub room : metadata_size ≤ size
  pub held :
      ((has_data b.info.nodetype ≡ true)
        × (bs : List ℕ) × (b.bytes ≡ some bs)
        × (length bs + metadata_size ≡ size))
      ⊎ ((has_data b.info.nodetype ≡ false) × (b.bytes ≡ none))

module _ {size : ℕ} {b : Node} (h : IsNode size b) where
  pub num_data_bytes : get_num_data_bytes b.info + metadata_size ≡ size
  num_data_bytes =
      let e =
        -W-eq b.info.blocksize metadata_size (omega (arith, h.room, h.blocksize))
          h.info.blocksize in
      omega (arith, e, h.room, h.blocksize)

  -- A whole block: the metadata and then `rest`.
  module _ (rest : List ℕ) (len : length rest + metadata_size ≡ size) where
    abbrev whole : List ℕ
    whole = encode_info b.info ++ rest

    length-whole : length whole ≡ size
    length-whole =
        omega (arith, length-append (encode_info b.info) rest, length-encode_info b.info, len)

    guards :
        ((size == b.info.blocksize) ≡ true)
        × (leb metadata_size (length whole) ≡ true)
        × (leb (metadata_size + get_num_data_bytes b.info) (length whole) ≡ true)
    guards = (
      ground (arith, h.blocksize),
      ground (arith, length-whole, h.room),
      ground (arith, length-whole, num_data_bytes),
    )

    data_lem : slice 28 (get_num_data_bytes b.info) whole ≡ rest
    data_lem =
        slice-encode_info b.info (get_num_data_bytes b.info) rest
        ∙ take_of_length-le (get_num_data_bytes b.info) rest (omega (arith, num_data_bytes))

    decode_node-data :
        has_data b.info.nodetype ≡ true
        → decode_node size whole ≡ ok (record { info = b.info; bytes = some rest })
    unfolding decode_node
    decode_node-data e =
        rw (decode_info-encode_info b.info rest h.info, guards.0, guards.1, guards.2, e, data_lem)
          refl

    decode_node-no_data :
        has_data b.info.nodetype ≡ false
        → decode_node size whole ≡ ok (record { info = b.info; bytes = none })
    unfolding decode_node
    decode_node-no_data e =
        rw (decode_info-encode_info b.info rest h.info, guards.0, guards.1, e) refl

  -- A node whose type, size and data fit its block is encoded as a whole block, which decodes to
  -- the node itself.
  pub decode_node-encode_node :
      (bs : List ℕ) × (encode_node b ≡ ok bs) × (length bs ≡ size) × (decode_node size bs ≡ ok b)
  unfolding encode_node
  decode_node-encode_node = elim h.held [
    | inl (e, bs, eb, len) ↦
        let all =
          take_of_length-le (get_num_data_bytes b.info) bs (omega (arith, num_data_bytes)) in
        let fits : leb (get_num_data_bytes b.info) (length bs) ≡ true =
          ground (arith, num_data_bytes) in
        (
          whole bs len,
          rw (e, eb, fits, all) refl,
          length-whole bs len,
          decode_node-data bs len e ∙ rw eb refl,
        )
    | inr (e, eb) ↦
        let rest = replicate (get_num_data_bytes b.info) 0 in
        let len : length rest + metadata_size ≡ size =
          omega (arith, num_data_bytes, length-replicate {A = ℕ} (get_num_data_bytes b.info) 0) in
        (
          whole rest len,
          rw e refl,
          length-whole rest len,
          decode_node-no_data rest len e ∙ rw eb refl,
        )
  ]
