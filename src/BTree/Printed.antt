-- ===== src/BTree/Printed.antt =====
-- PrintNode of btree_lab/btree.cc with BTREE_SORTED_KEYVAL: what it writes for one node.
use eecs.Prelude.{
  ℕ, zero, suc, ◌≡◌, refl, ap, ◌∙◌, true, false, inl, inr, Option-cases, List, [], ◌∷◌, ◌++◌,
  length, ◌==◌, arith,
}
use mathlib.Core.List.{append-nil, append_assoc}
use eecs.Bytes.{slice, decode_word}
use eecs.Outcome.{ok}
use eecs.Node.{Node, leaf_node, is_inner, get_key, get_ptr, load, resolve_key, resolve_ptr}
use eecs.BTree.Display.{btree_sorted_keyval, Piece, text, Stream, bytes_of, print_leaf, print_node}
use eecs.BTree.Tree.{Pair}
use eecs.BTree.Scans.{ShowsPairs}

-- A line `(key,value)` for each pair.
unfoldable pub listing : List Pair → Stream
listing [] = []
listing (pair ∷ pairs) =
    text "(" ∷ (bytes_of pair.0 ++ text "," ∷ (bytes_of pair.1 ++ text ")\n" ∷ listing pairs))

pub listing-append : (ps qs : List Pair) → listing (ps ++ qs) ≡ listing ps ++ listing qs
unfolding listing
listing-append [] qs = refl
listing-append (pair ∷ ps) qs =
    rw (listing-append ps qs)
      (simp (append_assoc (bytes_of pair.0), append_assoc (bytes_of pair.1)) refl)

-- The pieces of one line, written one by one.
line_lem :
    (os k v rest : Stream) (open_ comma close : Piece)
    → ((((((os ++ []) ++ open_ ∷ []) ++ k) ++ comma ∷ []) ++ v) ++ close ∷ []) ++ rest
      ≡ os ++ (open_ ∷ (k ++ comma ∷ (v ++ close ∷ rest)))
line_lem os k v rest open_ comma close = simp (append-nil, append_assoc) refl

-- The unused pointer of a leaf can be read where a key can.
pub leaf_ptr :
    (b : Node) (k : List ℕ)
    → b.info.nodetype ≡ leaf_node
    → get_key b 0 ≡ ok k
    → (p : ℕ) × (get_ptr b 0 ≡ ok p)
unfolding get_key get_ptr resolve_key resolve_ptr load
leaf_ptr b k type got = elim (Option-cases b.bytes) [
  | inl none_held ↦ absurd (ground (arith, type, got, none_held))
  | inr (bs, held) ↦ (decode_word (slice 0 4 bs), ground (arith, type, got, held))
]

print_leaf_lem :
    (b : Node) (i : ℕ) (pairs : List Pair) (p : ℕ) (os : Stream)
    → ShowsPairs b i pairs
    → get_ptr b 0 ≡ ok p
    → print_leaf (length pairs) i b btree_sorted_keyval os ≡ (ok tt, os ++ listing pairs)
unfolding print_leaf listing
print_leaf_lem b i [] p os h ptr = refl
print_leaf_lem b zero (pair ∷ pairs) p os (key, val, rest) ptr =
    rw (ptr, key)
      (rw val (
        print_leaf_lem b 1 pairs p _ rest ptr
        ∙ ap (λ o. (ok tt, o))
            (line_lem os (bytes_of pair.0) (bytes_of pair.1) (listing pairs) _ _ _)))
print_leaf_lem b (suc i) (pair ∷ pairs) p os (key, val, rest) ptr = rw key (
    rw val (
      print_leaf_lem b (suc (suc i)) pairs p _ rest ptr
      ∙ ap (λ o. (ok tt, o))
          (line_lem os (bytes_of pair.0) (bytes_of pair.1) (listing pairs) _ _ _)))

pub print_node_leaf :
    (b : Node) (k p : ℕ) (pairs : List Pair) (os : Stream)
    → b.info.nodetype ≡ leaf_node
    → b.info.numkeys ≡ length pairs
    → ShowsPairs b 0 pairs
    → get_ptr b 0 ≡ ok p
    → print_node k b btree_sorted_keyval os ≡ (ok tt, os ++ listing pairs)
unfolding print_node
print_node_leaf b k p pairs os type size h ptr =
    let not_inner : is_inner b.info.nodetype ≡ false = simp type refl in
    let is_leaf : (b.info.nodetype == leaf_node) ≡ true = ground (arith, type) in
    let printed : print_leaf b.info.numkeys 0 b btree_sorted_keyval os
        ≡ (ok tt, os ++ listing pairs) =
      simp size (print_leaf_lem b 0 pairs p os h ptr) in
    rw (not_inner, is_leaf) (simp (append-nil, printed) refl)

pub print_node_empty :
    (b : Node) (k : ℕ) (os : Stream)
    → b.info.nodetype ≡ leaf_node
    → b.info.numkeys ≡ 0
    → print_node k b btree_sorted_keyval os ≡ (ok tt, os)
unfolding print_node print_leaf
print_node_empty b k os type size =
    let not_inner : is_inner b.info.nodetype ≡ false = simp type refl in
    let is_leaf : (b.info.nodetype == leaf_node) ≡ true = ground (arith, type) in
    rw (not_inner, is_leaf) (simp (size, append-nil) refl)

pub print_node_inner :
    (b : Node) (k : ℕ) (os : Stream)
    → is_inner b.info.nodetype ≡ true
    → print_node k b btree_sorted_keyval os ≡ (ok tt, os)
unfolding print_node
print_node_inner b k os type = rw type (simp append-nil refl)
