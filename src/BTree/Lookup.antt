-- ===== src/BTree/Lookup.antt =====
-- LookupOrUpdateInternal and Lookup of btree_lab/btree.cc over a tree in the blocks.
use eecs.Prelude.{
  ℕ, zero, suc, ◌+◌, ◌≤◌, ◌<◌, ◌≡◌, refl, ◌∙◌, true, false, Option, none, some, inl, inr,
  Bool-cases, List, length, max, if◌then◌else◌, ltb, ◌==◌, arith,
}
use eecs.Double.{Double}
use eecs.Block.{Block, compare_bytes}
use eecs.Block.Order.{IsBlock}
use eecs.Cache.{Cache}
use eecs.Cache.Coherent.{IsCoherent}
use eecs.Outcome.{Outcome, ok}
use eecs.Node.{Node, is_inner, leaf_node, get_key, get_ptr, unserialize}
use eecs.Node.Transfer.{Keeps, Keeps-trans, unserialize-Keeps}
use eecs.Scan.{btree_op_lookup, scan_inner, scan_leaf}
use eecs.BTree.{Index, found, next_ptr, lookup_or_update_internal, lookup}
use eecs.BTree.Tree.{
  Tree, leaf, bare, inner, Forest, last, branch, at_most, first_match, lookup_tree, lookup_forest,
  entries, IsSearchTree, IsSearchForest, lookup_tree-entries,
}
use eecs.BTree.Scans.{
  Shows, ShowsForest, ShowsForest-Keeps, Shows-Keeps, count_keys, scan_leaf_lem, scan_inner_step,
}

-- The recursion depth that a lookup needs.
unfoldable mutual
  pub height : Tree → ℕ
  height (leaf pairs) = 1
  height bare = 1
  height (inner t k f) = suc (max (height t) (height_forest f))

  pub height_forest : Forest → ℕ
  height_forest (last t) = height t
  height_forest (branch t k f) = max (height t) (height_forest f)

pub height_lem : (t : Tree) → ¬ (height t ≤ 0)
unfolding height
height_lem (leaf pairs) h = omega arith
height_lem bare h = omega arith
height_lem (inner t k f) h = omega arith

module _ {ℓ} {D : Type ℓ} ⦃d : Double D⦄ {n : ℕ} {key : Block D} (sized : IsBlock n key) where
  -- The result of a lookup, with every block as it was.
  abbrev Found : Cache D → Outcome (List ℕ) × Cache D → Option (List ℕ) → Type ℓ
  Found c r o = (c' : Cache D) × (r ≡ (found o, c')) × Keeps c c'

  abbrev at : ℕ → ℕ → Cache D → Outcome (List ℕ) × Cache D
  at fuel k c = lookup_or_update_internal fuel k btree_op_lookup key c

  -- The loop from offset `i`, with `m` keys left, leads to a block where the lookup finds `o`.
  abbrev Routed : ℕ → Node → ℕ → ℕ → Cache D → Option (List ℕ) → Type ℓ
  Routed fuel b i m c o =
      (ptr : Option ℕ) × (p : ℕ) × (scan_inner m i b key ≡ ok ptr)
      × (next_ptr b ptr ≡ ok p)
      × Found c (at fuel p c) o

  at_leaf :
      (c c' : Cache D) (b : Node) (fuel k : ℕ) (r : Option (List ℕ))
      → unserialize k c ≡ (ok b, c')
      → b.info.nodetype ≡ leaf_node
      → scan_leaf b.info.numkeys 0 b btree_op_lookup key ≡ ok r
      → at (suc fuel) k c ≡ (found r, c')
  unfolding lookup_or_update_internal
  at_leaf c c' b fuel k r read type scan =
      let not_inner : is_inner b.info.nodetype ≡ false = simp type refl in
      let is_leaf : (b.info.nodetype == leaf_node) ≡ true = ground (arith, type) in
      rw read (rw (not_inner, is_leaf, scan) refl)

  at_inner :
      (c c' : Cache D) (b : Node) (fuel k p : ℕ) (ptr : Option ℕ)
      → unserialize k c ≡ (ok b, c')
      → is_inner b.info.nodetype ≡ true
      → scan_inner b.info.numkeys 0 b key ≡ ok ptr
      → next_ptr b ptr ≡ ok p
      → at (suc fuel) k c ≡ at fuel p c'
  unfolding lookup_or_update_internal
  at_inner c c' b fuel k p ptr read type scan next = rw read (rw type (rw scan (rw next refl)))

  at_bare :
      (c c' : Cache D) (b : Node) (fuel k : ℕ)
      → unserialize k c ≡ (ok b, c')
      → is_inner b.info.nodetype ≡ true
      → b.info.numkeys ≡ 0
      → at (suc fuel) k c ≡ (found none, c')
  unfolding lookup_or_update_internal scan_inner
  at_bare c c' b fuel k read type size = rw read (rw type (simp size refl))

  branch-Routed :
      (c : Cache D) (b : Node) (left right : Option (List ℕ)) (fuel i m p : ℕ) (k : List ℕ)
      → get_ptr b i ≡ ok p
      → get_key b i ≡ ok k
      → length k ≡ n
      → Found c (at fuel p c) left
      → Routed fuel b (suc i) m c right
      → Routed fuel b i (suc m) c (if at_most (compare_bytes n key.bytes k) then left else right)
  branch-Routed c b left right fuel i m p k ptr got size first others =
      elim (Bool-cases (at_most (compare_bytes n key.bytes k))) [
        | inl le ↦
            rw le
              (some p, p, scan_inner_step sized b i m k got size ∙ rw (le, ptr) refl, refl, first)
        | inr gt ↦
            let (ptr', p', scan, next, rest) = others in
            rw gt (ptr', p', scan_inner_step sized b i m k got size ∙ rw gt scan, next, rest)
      ]

  scan_end : (b : Node) (i : ℕ) → scan_inner 0 i b key ≡ ok none
  unfolding scan_inner
  scan_end b i = refl

  last_lem :
      (b : Node) (p : ℕ)
      → 0 < b.info.numkeys
      → get_ptr b b.info.numkeys ≡ ok p
      → next_ptr b none ≡ ok p
  last_lem b p some_key e =
      let positive : ltb 0 b.info.numkeys ≡ true = ground arith in rw positive e

  -- From the node `b`, once read.
  inner-Found :
      (c c' : Cache D) (b : Node) (fuel k : ℕ) (r : Option (List ℕ))
      → unserialize k c ≡ (ok b, c')
      → Keeps c c'
      → is_inner b.info.nodetype ≡ true
      → Routed fuel b 0 b.info.numkeys c' r
      → Found c (at (suc fuel) k c) r
  inner-Found c c' b fuel k r read w type (ptr, p, scan, next, (c'', e, v)) =
      (c'', at_inner c c' b fuel k p ptr read type scan next ∙ e, Keeps-trans w v)

  mutual
    unfolding Shows ShowsForest IsSearchTree IsSearchForest height height_forest lookup_tree
        lookup_forest count_keys

    lookup_shown :
        (t : Tree) (fuel k : ℕ) {c : Cache D}
        → height t ≤ fuel
        → IsCoherent c
        → IsSearchTree n t
        → Shows c k t
        → Found c (at fuel k c) (lookup_tree n key.bytes t)
    lookup_shown t zero k enough h ordered shown = absurd (height_lem t enough)
    lookup_shown (leaf pairs) (suc fuel) k {c} enough h sizes
          (inside, b, holds, type, size, shown) =
        let (c', read, w) = unserialize-Keeps k b h inside holds in
        (
          c',
          at_leaf c c' b fuel k (first_match n key.bytes pairs) read type
              (simp size (scan_leaf_lem sized b 0 pairs shown sizes)),
          w,
        )
    lookup_shown bare (suc fuel) k {c} enough h sizes (inside, b, holds, type, size) =
        let (c', read, w) = unserialize-Keeps k b h inside holds in
        (c', at_bare c c' b fuel k read type size, w)
    lookup_shown (inner t x f) (suc fuel) k enough h (left, right, apart)
          (inside, b, holds, type, size, p, ptr, shown, got, others) =
        let (c', read, w) = unserialize-Keeps k b h inside holds in
        let first = lookup_shown t fuel p (omega arith) w.coherent left (Shows-Keeps p t w shown) in
        let rest =
          lookup_forest_shown f fuel b 1 (omega arith) w.coherent right
            (ShowsForest-Keeps b 1 f w others) (omega arith) (omega arith) in
        inner-Found _ c' b fuel k _ read w type
          (simp size (branch-Routed _ b _ _ fuel 0 (count_keys f) p x ptr got apart.0 first rest))

    lookup_forest_shown :
        (f : Forest) (fuel : ℕ) (b : Node) (i : ℕ) {c : Cache D}
        → height_forest f ≤ fuel
        → IsCoherent c
        → IsSearchForest n f
        → ShowsForest c b i f
        → b.info.numkeys ≡ i + count_keys f
        → 0 < b.info.numkeys
        → Routed fuel b i (count_keys f) c (lookup_forest n key.bytes f)
    lookup_forest_shown (last t) fuel b i enough h ordered (p, ptr, shown) size some_key =
        let all : b.info.numkeys ≡ i = omega arith in
        (
          none,
          p,
          scan_end b i,
          last_lem b p some_key (simp all ptr),
          lookup_shown t fuel p enough h ordered shown,
        )
    lookup_forest_shown (branch t x f) fuel b i enough h (left, right, apart)
          (p, ptr, shown, got, others) size some_key =
        let first = lookup_shown t fuel p (omega arith) h left shown in
        let rest =
          lookup_forest_shown f fuel b (suc i) (omega arith) h right others (omega arith)
            some_key in
        branch-Routed _ b _ _ fuel i (count_keys f) p x ptr got apart.0 first rest

  -- Of an index whose root block holds a tree of keys of one size, separated by the keys in the
  -- inner nodes, Lookup of a key of that size returns the value that the first pair with the key
  -- has in the list of all pairs, or ERROR_NONEXISTENT, if the fuel is at least the height of the
  -- tree; no block has changed.
  pub lookup-entries :
      (x : Index D) (t : Tree) (fuel : ℕ)
      → height t ≤ fuel
      → IsCoherent x.cache
      → IsSearchTree n t
      → Shows x.cache x.superblock.info.rootnode t
      → (x' : Index D) × (lookup fuel key x ≡ (found (first_match n key.bytes (entries t)), x'))
        × Keeps x.cache x'.cache
        × (x'.superblock ≡ x.superblock)
  unfolding lookup
  lookup-entries x t fuel enough h ordered shown =
      let (c', e, w) = lookup_shown t fuel x.superblock.info.rootnode enough h ordered shown in
      (
        record x { cache = c' },
        rw (e, lookup_tree-entries n key.bytes t sized.size ordered) refl,
        w,
        refl,
      )
