-- ===== src/BTree/Listing.antt =====
-- Display of btree_lab/btree.cc with BTREE_SORTED_KEYVAL, which lists the pairs of the tree.
use eecs.Prelude.{
  ℕ, zero, suc, ◌≤◌, ◌≡◌, refl, sym, ap, ◌∙◌, true, false, List, [], ◌∷◌, ◌++◌, ltb, ◌==◌, arith,
}
use mathlib.Core.List.{append-nil, append_assoc}
use eecs.Double.{Double}
use eecs.Cache.{Cache}
use eecs.Cache.Coherent.{IsCoherent}
use eecs.Outcome.{Outcome, ok}
use eecs.Node.{Node, leaf_node, is_inner, get_ptr, unserialize}
use eecs.Node.Transfer.{Keeps, Keeps-trans, unserialize-Keeps}
use eecs.BTree.{Index}
use eecs.BTree.Display.{
  btree_sorted_keyval, Stream, Screen, print_node, display_children, display_internal, display,
}
use eecs.BTree.Tree.{Pair, Tree, leaf, bare, inner, Forest, last, branch, entries, entries_forest}
use eecs.BTree.Scans.{Shows, ShowsForest, ShowsForest-Keeps, Shows-Keeps, count_keys}
use eecs.BTree.Lookup.{height, height_forest, height_lem}
use eecs.BTree.Printed.{
  listing, listing-append, leaf_ptr, print_node_leaf, print_node_empty, print_node_inner,
}

module _ {ℓ} {D : Type ℓ} ⦃d : Double D⦄ where
  -- What is written to the stream after `os`.
  abbrev Lists : Screen D → Outcome (Unit {0}) × Screen D → List Pair → Type ℓ
  Lists s r pairs =
      (c' : Cache D) × (r ≡ (ok tt, record { cache = c'; os = s.os ++ listing pairs }))
      × Keeps s.cache c'

  abbrev from : ℕ → ℕ → Screen D → Outcome (Unit {0}) × Screen D
  from fuel k s = display_internal fuel k btree_sorted_keyval s

  at_leaf :
      (s : Screen D) (c1 : Cache D) (os1 : Stream) (b : Node) (fuel k : ℕ)
      → unserialize k s.cache ≡ (ok b, c1)
      → print_node k b btree_sorted_keyval s.os ≡ (ok tt, os1)
      → b.info.nodetype ≡ leaf_node
      → from (suc fuel) k s ≡ (ok tt, record { cache = c1; os = os1 })
  unfolding display_internal
  at_leaf s c1 os1 b fuel k read printed type =
      let not_inner : is_inner b.info.nodetype ≡ false = simp type refl in
      let is_leaf : (b.info.nodetype == leaf_node) ≡ true = ground (arith, type) in
      rw read (rw printed (rw (not_inner, is_leaf) (simp append-nil refl)))

  at_bare :
      (s : Screen D) (c1 : Cache D) (b : Node) (fuel k : ℕ)
      → unserialize k s.cache ≡ (ok b, c1)
      → is_inner b.info.nodetype ≡ true
      → b.info.numkeys ≡ 0
      → from (suc fuel) k s ≡ (ok tt, record { cache = c1; os = s.os })
  unfolding display_internal
  at_bare s c1 b fuel k read type size =
      let no_key : ltb 0 b.info.numkeys ≡ false = ground (arith, size) in
      rw read (rw (print_node_inner b k s.os type) (rw (type, no_key) (simp append-nil refl)))

  abbrev children : ℕ → ℕ → ℕ → ℕ → Node → Screen D → Outcome (Unit {0}) × Screen D
  children fuel n i k b s =
      display_children (λ ptr. display_internal fuel ptr btree_sorted_keyval) n i k b
        btree_sorted_keyval s

  at_inner :
      (s : Screen D) (c1 : Cache D) (b : Node) (fuel k n : ℕ)
      → unserialize k s.cache ≡ (ok b, c1)
      → is_inner b.info.nodetype ≡ true
      → b.info.numkeys ≡ suc n
      → from (suc fuel) k s ≡ children fuel (suc (suc n)) 0 k b (record { cache = c1; os = s.os })
  unfolding display_internal
  at_inner s c1 b fuel k n read type size =
      let some_key : ltb 0 b.info.numkeys ≡ true = ground (arith, size) in
      rw read
        (rw (print_node_inner b k s.os type) (rw (type, some_key) (simp (append-nil, size) refl)))

  child_step :
      (s s1 : Screen D) (fuel n i k p : ℕ) (b : Node)
      → get_ptr b i ≡ ok p
      → from fuel p s ≡ (ok tt, s1)
      → children fuel (suc n) i k b s ≡ children fuel n (suc i) k b s1
  unfolding display_children
  child_step s s1 fuel n i k p b ptr shown = rw ptr (rw (append-nil s.os) (rw shown refl))

  children_end : (s : Screen D) (fuel i k : ℕ) (b : Node) → children fuel 0 i k b s ≡ (ok tt, s)
  unfolding display_children
  children_end s fuel i k b = simp append-nil refl

  branch-Lists :
      (s : Screen D) (fuel n i k p : ℕ) (b : Node) (left right : List Pair)
      → get_ptr b i ≡ ok p
      → (first : Lists s (from fuel p s) left)
      → Lists
          (record { cache = first.0; os = s.os ++ listing left })
          (children fuel n (suc i) k b (record { cache = first.0; os = s.os ++ listing left }))
          right
      → Lists s (children fuel (suc n) i k b s) (left ++ right)
  branch-Lists s fuel n i k p b left right ptr (c1, e1, w1) (c2, e2, w2) = (
    c2,
    child_step s _ fuel n i k p b ptr e1
        ∙ e2
        ∙ ap (λ o. (ok tt, record { cache = c2; os = o }))
            (append_assoc s.os (listing left) (listing right)
              ∙ ap (λ l. s.os ++ l) (sym (listing-append left right))),
    Keeps-trans w1 w2,
  )

  nothing_more : (s : Screen D) → s ≡ record { cache = s.cache; os = s.os ++ listing [] }
  unfolding listing
  nothing_more s = simp append-nil refl

  mutual
    unfolding Shows ShowsForest height height_forest count_keys entries entries_forest

    tree_listed :
        (t : Tree) (fuel k : ℕ) (s : Screen D)
        → height t ≤ fuel
        → IsCoherent s.cache
        → Shows s.cache k t
        → Lists s (from fuel k s) (entries t)
    tree_listed t zero k s enough h shown = absurd (height_lem t enough)
    tree_listed (leaf []) (suc fuel) k s enough h (inside, b, holds, type, size, shown) =
        let (c1, read, w) = unserialize-Keeps k b h inside holds in
        (
          c1,
          at_leaf s c1 _ b fuel k read (print_node_empty b k s.os type size) type
              ∙ ap (λ r. (ok tt, r)) (nothing_more (record { cache = c1; os = s.os })),
          w,
        )
    tree_listed (leaf (pair ∷ pairs)) (suc fuel) k s enough h
          (inside, b, holds, type, size, shown) =
        let (c1, read, w) = unserialize-Keeps k b h inside holds in
        let (p, ptr) = leaf_ptr b pair.0 type shown.0 in
        (
          c1,
          at_leaf s c1 _ b fuel k read
              (print_node_leaf b k p (pair ∷ pairs) s.os type size shown ptr) type,
          w,
        )
    tree_listed bare (suc fuel) k s enough h (inside, b, holds, type, size) =
        let (c1, read, w) = unserialize-Keeps k b h inside holds in
        (
          c1,
          at_bare s c1 b fuel k read type size
              ∙ ap (λ r. (ok tt, r)) (nothing_more (record { cache = c1; os = s.os })),
          w,
        )
    tree_listed (inner t x f) (suc fuel) k s enough h
          (inside, b, holds, type, size, p, ptr, shown, got, others) =
        let (c1, read, w) = unserialize-Keeps k b h inside holds in
        let s1 : Screen D = record { cache = c1; os = s.os } in
        let first = tree_listed t fuel p s1 (omega arith) w.coherent (Shows-Keeps p t w shown) in
        let s2 : Screen D = record { cache = first.0; os = s.os ++ listing (entries t) } in
        let rest =
          forest_listed f fuel 1 k b s2 (omega arith) first.2.coherent
            (ShowsForest-Keeps b 1 f (Keeps-trans w first.2) others) in
        let (c3, e, v) = branch-Lists s1 fuel (suc (count_keys f)) 0 k p b _ _ ptr first rest in
        (c3, at_inner s c1 b fuel k (count_keys f) read type size ∙ e, Keeps-trans w v)

    forest_listed :
        (f : Forest) (fuel i k : ℕ) (b : Node) (s : Screen D)
        → height_forest f ≤ fuel
        → IsCoherent s.cache
        → ShowsForest s.cache b i f
        → Lists s (children fuel (suc (count_keys f)) i k b s) (entries_forest f)
    forest_listed (last t) fuel i k b s enough h (p, ptr, shown) =
        let (c1, e, w) = tree_listed t fuel p s enough h shown in
        (c1, child_step s _ fuel 0 i k p b ptr e ∙ children_end _ fuel (suc i) k b, w)
    forest_listed (branch t x f) fuel i k b s enough h (p, ptr, shown, got, others) =
        let first = tree_listed t fuel p s (omega arith) h shown in
        let s2 : Screen D = record { cache = first.0; os = s.os ++ listing (entries t) } in
        let rest =
          forest_listed f fuel (suc i) k b s2 (omega arith) first.2.coherent
            (ShowsForest-Keeps b (suc i) f first.2 others) in
        branch-Lists s fuel (suc (count_keys f)) i k p b _ _ ptr first rest

  -- Display with BTREE_SORTED_KEYVAL of an index whose root block holds a tree succeeds and writes
  -- a line `(key,value)` for each pair, in the order of the list of all pairs, if the fuel is at
  -- least the height of the tree; no block has changed.
  pub display-entries :
      (x : Index D) (t : Tree) (fuel : ℕ) (os : Stream)
      → height t ≤ fuel
      → IsCoherent x.cache
      → Shows x.cache x.superblock.info.rootnode t
      → (c' : Cache D) × (display fuel btree_sorted_keyval x os
          ≡ (ok tt, record { cache = c'; os = os ++ listing (entries t) }))
        × Keeps x.cache c'
  unfolding display
  display-entries x t fuel os enough h shown =
      let (c', e, w) =
        tree_listed t fuel x.superblock.info.rootnode (record { cache = x.cache; os = os }) enough h
          shown in
      (c', rw (append-nil os) (rw e (simp append-nil refl)), w)
