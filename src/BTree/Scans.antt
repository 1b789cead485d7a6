-- ===== src/BTree/Scans.antt =====
-- Trees in the blocks of an index of btree_lab/btree.cc, and the loops over one node of them.
use eecs.Prelude.{
  ℕ, suc, ◌<◌, ◌≡◌, refl, true, some, inl, inr, Bool-cases, List, [], ◌∷◌, length, if◌then◌else◌,
  arith,
}
use eecs.Double.{Double}
use eecs.Block
use eecs.Block.{Block, compare_bytes, memcmp, of_text}
use eecs.Block.Order.{IsBlock}
use eecs.Cache.{Cache}
use eecs.Outcome.{ok, ◌>>=◌}
use eecs.Node.{Node, is_inner, leaf_node, get_key, get_ptr, get_val}
use eecs.Node.Transfer.{Holds, Keeps, Redraws, Redraws-Keeps}
use eecs.Scan.{btree_op_lookup, le_key, defined, scan_inner, scan_leaf}
use eecs.BTree.Tree.{
  Pair, Tree, leaf, bare, inner, Forest, last, branch, same_key, at_most, first_match, AllKeys,
}

unfoldable pub count_keys : Forest → ℕ
count_keys (last t) = 0
count_keys (branch t k f) = suc (count_keys f)

-- From offset `i` on the leaf has the pairs.
abbrev pub ShowsPairs : Node → ℕ → List Pair → Type 0
ShowsPairs b i [] = Unit
ShowsPairs b i (pair ∷ pairs) =
    (get_key b i ≡ ok pair.0) × (get_val b i ≡ ok pair.1) × ShowsPairs b (suc i) pairs

module _ {ℓ} {D : Type ℓ} where
  -- Block `k` holds the root of the tree; from offset `i` on the node `b` has the subtrees' blocks and
  -- the keys between them.
  unfoldable mutual
    pub Shows : Cache D → ℕ → Tree → Type 0
    Shows c k (leaf pairs) =
        (k < c.disk.numblocks)
        × (b : Node) × Holds c k b
        × (b.info.nodetype ≡ leaf_node)
        × (b.info.numkeys ≡ length pairs)
        × ShowsPairs b 0 pairs
    Shows c k bare =
        (k < c.disk.numblocks)
        × (b : Node) × Holds c k b
        × (is_inner b.info.nodetype ≡ true)
        × (b.info.numkeys ≡ 0)
    Shows c k (inner t key f) =
        (k < c.disk.numblocks)
        × (b : Node) × Holds c k b
        × (is_inner b.info.nodetype ≡ true)
        × (b.info.numkeys ≡ suc (count_keys f))
        × (p : ℕ) × (get_ptr b 0 ≡ ok p)
        × Shows c p t
        × (get_key b 0 ≡ ok key)
        × ShowsForest c b 1 f

    pub ShowsForest : Cache D → Node → ℕ → Forest → Type 0
    ShowsForest c b i (last t) = (p : ℕ) × (get_ptr b i ≡ ok p) × Shows c p t
    ShowsForest c b i (branch t key f) =
        (p : ℕ) × (get_ptr b i ≡ ok p)
        × Shows c p t
        × (get_key b i ≡ ok key)
        × ShowsForest c b (suc i) f

  mutual
    unfolding Shows ShowsForest

    pub Shows-Redraws :
        {c c' : Cache D} (k : ℕ) (t : Tree) → Redraws c c' → Shows c k t → Shows c' k t
    Shows-Redraws k (leaf pairs) w (inside, b, holds, type, size, at) =
        (rw w.shape.numblocks inside, b, w.redrawn k b holds, type, size, at)
    Shows-Redraws k bare w (inside, b, holds, type, size) =
        (rw w.shape.numblocks inside, b, w.redrawn k b holds, type, size)
    Shows-Redraws k (inner t key f) w (inside, b, holds, type, size, p, ptr, left, at, right) = (
      rw w.shape.numblocks inside,
      b,
      w.redrawn k b holds,
      type,
      size,
      p,
      ptr,
      Shows-Redraws p t w left,
      at,
      ShowsForest-Redraws b 1 f w right,
    )

    pub ShowsForest-Redraws :
        {c c' : Cache D} (b : Node) (i : ℕ) (f : Forest)
        → Redraws c c'
        → ShowsForest c b i f
        → ShowsForest c' b i f
    ShowsForest-Redraws b i (last t) w (p, ptr, left) = (p, ptr, Shows-Redraws p t w left)
    ShowsForest-Redraws b i (branch t key f) w (p, ptr, left, at, right) =
        (p, ptr, Shows-Redraws p t w left, at, ShowsForest-Redraws b (suc i) f w right)

  pub Shows-Keeps : {c c' : Cache D} (k : ℕ) (t : Tree) → Keeps c c' → Shows c k t → Shows c' k t
  Shows-Keeps k t w h = Shows-Redraws k t (Redraws-Keeps w) h

  pub ShowsForest-Keeps :
      {c c' : Cache D} (b : Node) (i : ℕ) (f : Forest)
      → Keeps c c'
      → ShowsForest c b i f
      → ShowsForest c' b i f
  ShowsForest-Keeps b i f w h = ShowsForest-Redraws b i f (Redraws-Keeps w) h

module _ {ℓ} {D : Type ℓ} ⦃d : Double D⦄ {n : ℕ} {key : Block D} (sized : IsBlock n key) where
  le_key_lem :
      (k : List ℕ) → length k ≡ n → le_key key k ≡ ok (at_most (compare_bytes n key.bytes k))
  unfolding Block.lt Block.eq of_text memcmp
  le_key_lem k e = ground (arith, sized.size, sized.labelled)

  eq_key_lem :
      (k : List ℕ)
      → length k ≡ n
      → defined (Block.eq (of_text k) key) ≡ ok (same_key (compare_bytes n k key.bytes))
  unfolding Block.eq of_text memcmp
  eq_key_lem k e = ground (arith, sized.size, sized.labelled)

  -- The loop over a leaf's keys finds the first pair with the key.
  pub scan_leaf_lem :
      (b : Node) (i : ℕ) (pairs : List Pair)
      → ShowsPairs b i pairs
      → AllKeys n (λ x. Unit) pairs
      → scan_leaf (length pairs) i b btree_op_lookup key ≡ ok (first_match n key.bytes pairs)
  unfolding scan_leaf first_match
  scan_leaf_lem b i [] h sizes = refl
  scan_leaf_lem b i ((k, v) ∷ pairs) (at, val, rest) (size, other, sizes) =
      rw (at, eq_key_lem k size)
        (elim (Bool-cases (same_key (compare_bytes n k key.bytes))) [
          | inl same ↦ rw (same, val) refl
          | inr differs ↦ rw differs (scan_leaf_lem b (suc i) pairs rest sizes)
        ])

  -- One round of the loop over an inner node's keys.
  pub scan_inner_step :
      (b : Node) (i m : ℕ) (k : List ℕ)
      → get_key b i ≡ ok k
      → length k ≡ n
      → scan_inner (suc m) i b key ≡ (
          if at_most (compare_bytes n key.bytes k)
          then (get_ptr b i >>= λ p. ok (some p))
          else scan_inner m (suc i) b key)
  unfolding scan_inner
  scan_inner_step b i m k at size = rw (at, le_key_lem k size) refl
