-- ===== src/Node/Leaf.antt =====
-- Pairs of a leaf, PTR KEY VALUE KEY VALUE …: what is read after a write.
use eecs.Prelude.{
  ℕ, ◌+◌, ◌*◌, ◌≤◌, ◌<◌, ◌≡◌, ◌≢◌, ◌⊎◌, inl, refl, ap, sym, ◌∙◌, List, length, arith,
}
use eecs.Prelude.Ranges.{blocks_apart}
use eecs.Bytes.{splice}
use eecs.Bytes.Laws.{slice-splice, slice-splice_apart, length-splice}
use eecs.Outcome.{ok}
use eecs.Node.{Node, ptr_size, get_key, get_val, get_key_val, set_key_val}
use eecs.Node.Layout.{
  IsLeaf, with_bytes, get_key_leaf, get_val_leaf, set_key_leaf, set_val_leaf, pair_in,
}

with_bytes-IsLeaf :
    {b : Node} {bs bs' : List ℕ}
    → IsLeaf b bs
    → length bs' ≡ length bs
    → IsLeaf (with_bytes b bs') bs'
with_bytes-IsLeaf h e = record {
  type = h.type;
  held = refl;
  room = rw e h.room;
  word = rw e h.word;
  pair_word = h.pair_word;
}

module _ {b : Node} {bs : List ℕ} (h : IsLeaf b bs) where
  abbrev key_at : ℕ → ℕ
  key_at i = ptr_size + i * (b.info.keysize + b.info.valuesize)

  abbrev val_at : ℕ → ℕ
  val_at i = key_at i + b.info.keysize

  -- The data after pair `i` is written.
  abbrev pair_written : ℕ → List ℕ → List ℕ → List ℕ
  pair_written i k v = splice (val_at i) v (splice (key_at i) k bs)

  apart :
      (i j : ℕ)
      → j ≢ i
      → (val_at j + b.info.valuesize ≤ key_at i) ⊎ (val_at i + b.info.valuesize ≤ key_at j)
  apart i j ne = omega (arith, blocks_apart ptr_size (b.info.keysize + b.info.valuesize) j i ne)

  module _ (i : ℕ) (k v : List ℕ) (lt : i < b.info.numkeys) (ek : length k ≡ b.info.keysize)
      (ev : length v ≡ b.info.valuesize) where
    length-key_written : length (splice (key_at i) k bs) ≡ length bs
    length-key_written = length-splice (key_at i) k bs

    length-pair_written : length (pair_written i k v) ≡ length bs
    length-pair_written = length-splice (val_at i) v (splice (key_at i) k bs) ∙ length-key_written

    key_written-IsLeaf : IsLeaf (with_bytes b (splice (key_at i) k bs)) (splice (key_at i) k bs)
    key_written-IsLeaf = with_bytes-IsLeaf h length-key_written

    pair_written-IsLeaf : IsLeaf (with_bytes b (pair_written i k v)) (pair_written i k v)
    pair_written-IsLeaf = with_bytes-IsLeaf h length-pair_written

    set_key_val_leaf : set_key_val b i (k, v) ≡ ok (with_bytes b (pair_written i k v))
    unfolding set_key_val
    set_key_val_leaf = rw (set_key_leaf h i k lt ek) (set_val_leaf key_written-IsLeaf i v lt ev)

    get_key_written : get_key (with_bytes b (pair_written i k v)) i ≡ ok k
    get_key_written =
        get_key_leaf pair_written-IsLeaf i lt
        ∙ ap ok (
            slice-splice_apart (key_at i) b.info.keysize (val_at i) v (splice (key_at i) k bs)
              (inl (omega arith)))
        ∙ ap ok (slice-splice (key_at i) b.info.keysize k bs (omega (arith, pair_in h i lt)) ek)

    get_val_written : get_val (with_bytes b (pair_written i k v)) i ≡ ok v
    get_val_written =
        get_val_leaf pair_written-IsLeaf i lt
        ∙ ap ok (
            slice-splice (val_at i) b.info.valuesize v (splice (key_at i) k bs)
              (omega (arith, pair_in h i lt, length-key_written)) ev)

    get_key_kept :
        (j : ℕ)
        → j < b.info.numkeys
        → j ≢ i
        → get_key (with_bytes b (pair_written i k v)) j ≡ get_key b j
    get_key_kept j ltj ne =
        get_key_leaf pair_written-IsLeaf j ltj
        ∙ ap ok (
            slice-splice_apart (key_at j) b.info.keysize (val_at i) v (splice (key_at i) k bs)
              (omega (arith, apart i j ne, ev)))
        ∙ ap ok (
            slice-splice_apart (key_at j) b.info.keysize (key_at i) k bs
              (omega (arith, apart i j ne, ek)))
        ∙ sym (get_key_leaf h j ltj)

    get_val_kept :
        (j : ℕ)
        → j < b.info.numkeys
        → j ≢ i
        → get_val (with_bytes b (pair_written i k v)) j ≡ get_val b j
    get_val_kept j ltj ne =
        get_val_leaf pair_written-IsLeaf j ltj
        ∙ ap ok (
            slice-splice_apart (val_at j) b.info.valuesize (val_at i) v (splice (key_at i) k bs)
              (omega (arith, apart i j ne, ev)))
        ∙ ap ok (
            slice-splice_apart (val_at j) b.info.valuesize (key_at i) k bs
              (omega (arith, apart i j ne, ek)))
        ∙ sym (get_val_leaf h j ltj)

    get_key_val_written : get_key_val (with_bytes b (pair_written i k v)) i ≡ ok (k, v)
    unfolding get_key_val
    get_key_val_written = rw (get_key_written, get_val_written)

    get_key_val_kept :
        (j : ℕ)
        → j < b.info.numkeys
        → j ≢ i
        → get_key_val (with_bytes b (pair_written i k v)) j ≡ get_key_val b j
    unfolding get_key_val
    get_key_val_kept j ltj ne = rw (get_key_kept j ltj ne, get_val_kept j ltj ne)

  -- Of a leaf with room for its pairs, PTR KEY VALUE KEY VALUE …, writing pair `i` with a key and a
  -- value of the node's sizes succeeds, keeps the metadata, and is read back; every other pair
  -- reads as before.
  pub set_key_val_reads :
      (i : ℕ) (k v : List ℕ)
      → i < b.info.numkeys
      → length k ≡ b.info.keysize
      → length v ≡ b.info.valuesize
      → (b' : Node) × (set_key_val b i (k, v) ≡ ok b')
        × (b'.info ≡ b.info)
        × (get_key_val b' i ≡ ok (k, v))
        × ((j : ℕ) → j < b.info.numkeys → j ≢ i → get_key_val b' j ≡ get_key_val b j)
  set_key_val_reads i k v lt ek ev = (
    with_bytes b (pair_written i k v),
    set_key_val_leaf i k v lt ek ev,
    refl,
    get_key_val_written i k v lt ek ev,
    get_key_val_kept i k v lt ek ev,
  )
