-- ===== src/Node/Inner.antt =====
-- Keys and pointers of an inner node, PTR KEY PTR KEY … PTR: what is read after a write.
use eecs.Prelude.{ℕ, ◌+◌, ◌*◌, ◌≤◌, ◌<◌, ◌≡◌, ◌≢◌, ◌⊎◌, refl, ap, sym, ◌∙◌, List, length, arith}
use eecs.Prelude.Words.{IsWord}
use eecs.Prelude.Ranges.{blocks_apart, slots_apart}
use eecs.Bytes.{splice, encode_word, decode_word}
use eecs.Bytes.Laws.{
  slice-splice, slice-splice_apart, length-splice, length-encode_word, decode_word-encode_word,
}
use eecs.Outcome.{ok}
use eecs.Node.{Node, ptr_size, get_key, get_ptr, set_key, set_ptr}
use eecs.Node.Layout.{
  IsInner, with_bytes, get_key_inner, get_ptr_inner, set_key_inner, set_ptr_inner, slot_in, ptr_in,
}

with_bytes-IsInner :
    {b : Node} {bs bs' : List ℕ}
    → IsInner b bs
    → length bs' ≡ length bs
    → IsInner (with_bytes b bs') bs'
with_bytes-IsInner h e = record {
  type = h.type;
  held = refl;
  room = rw e h.room;
  word = rw e h.word;
}

module _ {b : Node} {bs : List ℕ} (h : IsInner b bs) where
  -- The node with `bs'` for its data, and what its accessors read of it.
  abbrev stride : ℕ
  stride = ptr_size + b.info.keysize

  keys_apart :
      (i j n : ℕ)
      → n ≡ b.info.keysize
      → j ≢ i
      → (ptr_size + j * stride + b.info.keysize ≤ ptr_size + i * stride)
        ⊎ (ptr_size + i * stride + n ≤ ptr_size + j * stride)
  keys_apart i j n e ne = omega (arith, blocks_apart ptr_size stride j i ne)

  ptr_key_apart :
      (i j n : ℕ)
      → n ≡ b.info.keysize
      → (j * stride + ptr_size ≤ ptr_size + i * stride) ⊎ (ptr_size + i * stride + n ≤ j * stride)
  ptr_key_apart i j n e = omega (arith, slots_apart stride j i ptr_size (omega arith))

  key_ptr_apart :
      (i j n : ℕ)
      → n ≡ 4
      → (ptr_size + j * stride + b.info.keysize ≤ i * stride)
        ⊎ (i * stride + n ≤ ptr_size + j * stride)
  key_ptr_apart i j n e = omega (arith, slots_apart stride i j ptr_size (omega arith))

  ptrs_apart :
      (i j n : ℕ)
      → n ≡ 4
      → j ≢ i
      → (j * stride + ptr_size ≤ i * stride) ⊎ (i * stride + n ≤ j * stride)
  ptrs_apart i j n e ne = omega (arith, blocks_apart 0 stride j i ne)

  -- Of an inner node with room for its keys and pointers, writing key `i` with a key of the node's
  -- size succeeds, keeps the metadata, and is read back; the other keys and every pointer read as
  -- before.
  pub set_key_inner_reads :
      (i : ℕ) (k : List ℕ)
      → i < b.info.numkeys
      → length k ≡ b.info.keysize
      → (b' : Node) × (set_key b i k ≡ ok b')
        × (b'.info ≡ b.info)
        × (get_key b' i ≡ ok k)
        × ((j : ℕ) → j < b.info.numkeys → j ≢ i → get_key b' j ≡ get_key b j)
        × ((j : ℕ) → j ≤ b.info.numkeys → get_ptr b' j ≡ get_ptr b j)
  set_key_inner_reads i k lt size =
      let at = ptr_size + i * stride in
      let bs' = splice at k bs in
      let h' = with_bytes-IsInner {bs' = bs'} h (length-splice at k bs) in
      (
        with_bytes b bs',
        set_key_inner h i k lt size,
        refl,
        get_key_inner h' i lt
            ∙ ap ok (slice-splice at b.info.keysize k bs (omega (arith, slot_in h i lt)) size),
        λ j ltj ne.
            get_key_inner h' j ltj
            ∙ ap ok (
                slice-splice_apart (ptr_size + j * stride) b.info.keysize at k bs
                  (keys_apart i j (length k) size ne))
            ∙ sym (get_key_inner h j ltj),
        λ j lej.
            get_ptr_inner h' j lej
            ∙ ap (λ w. ok (decode_word w))
                (slice-splice_apart (j * stride) ptr_size at k bs
                  (ptr_key_apart i j (length k) size))
            ∙ sym (get_ptr_inner h j lej),
      )

  -- Of an inner node with room for its keys and pointers, writing pointer `i` with a word succeeds,
  -- keeps the metadata, and is read back; the other pointers and every key read as before.
  pub set_ptr_inner_reads :
      (i p : ℕ)
      → i ≤ b.info.numkeys
      → IsWord p
      → (b' : Node) × (set_ptr b i p ≡ ok b')
        × (b'.info ≡ b.info)
        × (get_ptr b' i ≡ ok p)
        × ((j : ℕ) → j ≤ b.info.numkeys → j ≢ i → get_ptr b' j ≡ get_ptr b j)
        × ((j : ℕ) → j < b.info.numkeys → get_key b' j ≡ get_key b j)
  set_ptr_inner_reads i p le word =
      let w = encode_word p in
      let at = i * stride in
      let bs' = splice at w bs in
      let h' = with_bytes-IsInner {bs' = bs'} h (length-splice at w bs) in
      let size = length-encode_word p in
      (
        with_bytes b bs',
        set_ptr_inner h i p le,
        refl,
        get_ptr_inner h' i le
            ∙ ap (λ v. ok (decode_word v)) (slice-splice at ptr_size w bs (ptr_in h i le) size)
            ∙ ap ok (decode_word-encode_word p word),
        λ j lej ne.
            get_ptr_inner h' j lej
            ∙ ap (λ v. ok (decode_word v))
                (slice-splice_apart (j * stride) ptr_size at w bs
                  (ptrs_apart i j (length w) size ne))
            ∙ sym (get_ptr_inner h j lej),
        λ j ltj.
            get_key_inner h' j ltj
            ∙ ap ok (
                slice-splice_apart (ptr_size + j * stride) b.info.keysize at w bs
                  (key_ptr_apart i j (length w) size))
            ∙ sym (get_key_inner h j ltj),
      )
