-- ===== src/Node/Layout.antt =====
-- The accessors of BTreeNode: where a node's keys, pointers and values lie in its data.
use eecs.Prelude.{
  ℕ, ◌+◌, ◌*◌, ◌^◌, ◌≤◌, ◌<◌, ◌≡◌, true, false, some, List, length, take_of_length-le, ltb, leb,
  ◌==◌, arith,
}
use eecs.Prelude.Words.{size_mod, +W-eq, *W-eq}
use eecs.Prelude.Ranges.{slot-end-le}
use native.Mathlib.Nat.{mod-eq_of_lt, mul-le-mul_right}
use eecs.Bytes.{slice, splice, encode_word, decode_word}
use eecs.Bytes.Laws.{length-encode_word}
use eecs.Outcome.{ok}
use eecs.Node.{
  Node, is_inner, leaf_node, inner_at, leaf_at, ptr_size, resolve_key, resolve_ptr, resolve_val,
  load, store, get_key, get_ptr, get_val, set_key, set_ptr, set_val,
}

-- An inner node with the data `bs`: there is room for its keys and for one pointer more.
pub record IsInner (b : Node) (bs : List ℕ) : Type 0 where
  pub type : is_inner b.info.nodetype ≡ true
  pub held : b.bytes ≡ some bs
  pub room : b.info.numkeys * (ptr_size + b.info.keysize) + ptr_size ≤ length bs
  pub word : length bs < 2 ^ 64

-- A leaf with the data `bs`: the unused pointer, and room for its pairs.
pub record IsLeaf (b : Node) (bs : List ℕ) : Type 0 where
  pub type : b.info.nodetype ≡ leaf_node
  pub held : b.bytes ≡ some bs
  pub room : ptr_size + b.info.numkeys * (b.info.keysize + b.info.valuesize) ≤ length bs
  pub word : length bs < size_mod
  pub pair_word : b.info.keysize + b.info.valuesize < size_mod

abbrev pub with_bytes : Node → List ℕ → Node
with_bytes b bs = record b { bytes = some bs }

module _ (b : Node) (bs : List ℕ) (held : b.bytes ≡ some bs) where
  load_lem : (p n : ℕ) → p + n ≤ length bs → load b n (some p) ≡ ok (slice p n bs)
  unfolding load
  load_lem p n h = ground (arith, held)

  store_lem :
      (p n : ℕ) (v : List ℕ)
      → p + n ≤ length bs
      → length v ≡ n
      → store b n v (some p) ≡ ok (with_bytes b (splice p v bs))
  unfolding store
  store_lem p n v h e = ground (arith, held, take_of_length-le n v)

module _ {b : Node} {bs : List ℕ} (h : IsInner b bs) where
  abbrev step : ℕ
  step = ptr_size + b.info.keysize

  pub slot_in : (i : ℕ) → i < b.info.numkeys → i * step + step ≤ length bs
  slot_in i lt = omega (arith, slot-end-le step i b.info.numkeys lt, h.room)

  pub ptr_in : (i : ℕ) → i ≤ b.info.numkeys → i * step + ptr_size ≤ length bs
  ptr_in i le = omega (arith, mul-le-mul_right step le, h.room)

  inner_at_lem : (i : ℕ) → i ≤ b.info.numkeys → inner_at b i ≡ i * step
  inner_at_lem i le = mod-eq_of_lt (omega (arith, ptr_in i le, h.word))

  resolve_key_inner :
      (i : ℕ) → i < b.info.numkeys → resolve_key b i ≡ ok (some (ptr_size + i * step))
  unfolding resolve_key
  resolve_key_inner i lt =
      let in_range : ltb i b.info.numkeys ≡ true = ground arith in
      rw (h.type, in_range, inner_at_lem i (omega arith))

  resolve_ptr_inner : (i : ℕ) → i ≤ b.info.numkeys → resolve_ptr b i ≡ ok (some (i * step))
  unfolding resolve_ptr
  resolve_ptr_inner i le =
      let in_range : leb i b.info.numkeys ≡ true = ground arith in
      rw (h.type, in_range, inner_at_lem i le)

  pub get_key_inner :
      (i : ℕ)
      → i < b.info.numkeys
      → get_key b i ≡ ok (slice (ptr_size + i * step) b.info.keysize bs)
  unfolding get_key
  get_key_inner i lt =
      rw (resolve_key_inner i lt) (load_lem b bs h.held _ _ (omega (arith, slot_in i lt)))

  pub get_ptr_inner :
      (i : ℕ) → i ≤ b.info.numkeys → get_ptr b i ≡ ok (decode_word (slice (i * step) ptr_size bs))
  unfolding get_ptr
  get_ptr_inner i le =
      rw (resolve_ptr_inner i le, load_lem b bs h.held (i * step) ptr_size (ptr_in i le))

  pub set_key_inner :
      (i : ℕ) (k : List ℕ)
      → i < b.info.numkeys
      → length k ≡ b.info.keysize
      → set_key b i k ≡ ok (with_bytes b (splice (ptr_size + i * step) k bs))
  unfolding set_key
  set_key_inner i k lt size =
      rw (resolve_key_inner i lt) (store_lem b bs h.held _ _ k (omega (arith, slot_in i lt)) size)

  pub set_ptr_inner :
      (i p : ℕ)
      → i ≤ b.info.numkeys
      → set_ptr b i p ≡ ok (with_bytes b (splice (i * step) (encode_word p) bs))
  unfolding set_ptr
  set_ptr_inner i p le =
      rw (resolve_ptr_inner i le)
        (store_lem b bs h.held _ _ (encode_word p) (ptr_in i le) (length-encode_word p))

module _ {b : Node} {bs : List ℕ} (h : IsLeaf b bs) where
  abbrev pair : ℕ
  pair = b.info.keysize + b.info.valuesize

  pub pair_in : (i : ℕ) → i < b.info.numkeys → ptr_size + i * pair + pair ≤ length bs
  pair_in i lt = omega (arith, slot-end-le pair i b.info.numkeys lt, h.room)

  leaf_at_lem : (i : ℕ) → i < b.info.numkeys → leaf_at b i ≡ i * pair
  leaf_at_lem i lt =
      rw (+W-eq b.info.keysize b.info.valuesize h.pair_word)
        (*W-eq i pair (omega (arith, pair_in i lt, h.word)))

  not_inner : is_inner b.info.nodetype ≡ false
  not_inner = rw h.type

  is_leaf : (b.info.nodetype == leaf_node) ≡ true
  is_leaf = rw h.type

  resolve_key_leaf :
      (i : ℕ) → i < b.info.numkeys → resolve_key b i ≡ ok (some (ptr_size + i * pair))
  unfolding resolve_key
  resolve_key_leaf i lt =
      let in_range : ltb i b.info.numkeys ≡ true = ground arith in
      rw (not_inner, is_leaf, in_range, leaf_at_lem i lt)

  resolve_val_leaf :
      (i : ℕ)
      → i < b.info.numkeys
      → resolve_val b i ≡ ok (some (ptr_size + i * pair + b.info.keysize))
  unfolding resolve_val
  resolve_val_leaf i lt =
      let in_range : ltb i b.info.numkeys ≡ true = ground arith in
      rw (is_leaf, in_range, leaf_at_lem i lt)

  pub get_key_leaf :
      (i : ℕ)
      → i < b.info.numkeys
      → get_key b i ≡ ok (slice (ptr_size + i * pair) b.info.keysize bs)
  unfolding get_key
  get_key_leaf i lt =
      rw (resolve_key_leaf i lt) (load_lem b bs h.held _ _ (omega (arith, pair_in i lt)))

  pub get_val_leaf :
      (i : ℕ)
      → i < b.info.numkeys
      → get_val b i ≡ ok (slice (ptr_size + i * pair + b.info.keysize) b.info.valuesize bs)
  unfolding get_val
  get_val_leaf i lt =
      rw (resolve_val_leaf i lt) (load_lem b bs h.held _ _ (omega (arith, pair_in i lt)))

  pub set_key_leaf :
      (i : ℕ) (k : List ℕ)
      → i < b.info.numkeys
      → length k ≡ b.info.keysize
      → set_key b i k ≡ ok (with_bytes b (splice (ptr_size + i * pair) k bs))
  unfolding set_key
  set_key_leaf i k lt size =
      rw (resolve_key_leaf i lt) (store_lem b bs h.held _ _ k (omega (arith, pair_in i lt)) size)

  pub set_val_leaf :
      (i : ℕ) (v : List ℕ)
      → i < b.info.numkeys
      → length v ≡ b.info.valuesize
      → set_val b i v ≡ ok (with_bytes b (splice (ptr_size + i * pair + b.info.keysize) v bs))
  unfolding set_val
  set_val_leaf i v lt size =
      rw (resolve_val_leaf i lt) (store_lem b bs h.held _ _ v (omega (arith, pair_in i lt)) size)
