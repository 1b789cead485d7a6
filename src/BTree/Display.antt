-- ===== src/BTree/Display.antt =====
-- BTreeIndex::Display of btree_lab/btree.cc with PrintNode and DisplayInternal. The stream is the
-- list of the pieces written to it. A byte of a key or a value is written as it is.
pub mod Same
use Prim.Native.String.{String}
use eecs.Prelude.{
  ℕ, zero, suc, Bool, true, false, not, ◌||◌, List, [], ◌∷◌, ◌++◌, ◌==◌, ltb, if◌then◌else◌,
}
use eecs.Error.{insane}
use eecs.Double.{Double}
use eecs.Cache.{Cache}
use eecs.Outcome.{Outcome, ok, err, crash}
use eecs.Outcome.Exec.{lift, ◌>>=◌, ◌>>◌}
use eecs.Node.{Node, leaf_node, is_inner, get_key, get_ptr, get_val, unserialize}
use eecs.BTree.{Index}

pub data BTreeDisplayType : Type 0 where
  btree_depth btree_depth_dot btree_sorted_keyval : BTreeDisplayType

pub data Piece : Type 0 where
  text : String → Piece
  number : ℕ → Piece
  byte : ℕ → Piece

abbrev pub Stream : Type 0
Stream = List Piece

abbrev pub is_dot : BTreeDisplayType → Bool
is_dot btree_depth_dot = true
is_dot _ = false

abbrev pub is_sorted : BTreeDisplayType → Bool
is_sorted btree_sorted_keyval = true
is_sorted _ = false

-- os << …
abbrev pub put : Stream → Stream → Outcome (Unit {0}) × Stream
put pieces os = (ok tt, os ++ pieces)

abbrev pub put_if : Bool → Stream → Stream → Outcome (Unit {0}) × Stream
put_if true pieces = put pieces
put_if false pieces = put []

-- for (i=0;i<keysize;i++) os << key.data[i], and the same for a value
abbrev pub bytes_of : List ℕ → Stream
bytes_of [] = []
bytes_of (b ∷ bs) = byte b ∷ bytes_of bs

-- The loop over an inner node: `n` keys are left. It ends at the pointer after the last key.
unfoldable pub print_inner : ℕ → ℕ → Node → Stream → Outcome (Unit {0}) × Stream
print_inner zero offset b = do
  ptr ← lift (get_ptr b offset)
  put (text "*" ∷ number ptr ∷ text " " ∷ [])
print_inner (suc n) offset b = do
  ptr ← lift (get_ptr b offset)
  put (text "*" ∷ number ptr ∷ text " " ∷ [])
  key ← lift (get_key b offset)
  put (bytes_of key ++ text " " ∷ [])
  print_inner n (suc offset) b

-- What a leaf's loop does first at offset 0.
abbrev pub print_first : ℕ → Node → BTreeDisplayType → Stream → Outcome (Unit {0}) × Stream
print_first zero b dt = do
  ptr ← lift (get_ptr b 0)
  put_if (not (is_sorted dt)) (text "*" ∷ number ptr ∷ text " " ∷ [])
print_first (suc offset) b dt = put []

-- The loop over a leaf: `n` pairs are left.
unfoldable pub print_leaf : ℕ → ℕ → Node → BTreeDisplayType → Stream → Outcome (Unit {0}) × Stream
print_leaf zero offset b dt = put []
print_leaf (suc n) offset b dt = do
  print_first offset b dt
  put_if (is_sorted dt) (text "(" ∷ [])
  key ← lift (get_key b offset)
  put (bytes_of key)
  put ((if is_sorted dt then text "," else text " ") ∷ [])
  value ← lift (get_val b offset)
  put (bytes_of value)
  put ((if is_sorted dt then text ")\n" else text " ") ∷ [])
  print_leaf n (suc offset) b dt

abbrev heading : ℕ → BTreeDisplayType → Stream
heading nodenum btree_depth_dot =
    number nodenum ∷ text " [ label=\"" ∷ number nodenum ∷ text ": " ∷ []
heading nodenum btree_depth = number nodenum ∷ text ": " ∷ []
heading nodenum btree_sorted_keyval = []

abbrev unknown : ℕ → BTreeDisplayType → Stream
unknown nodetype btree_depth_dot = text "Unknown(" ∷ number nodetype ∷ text ")" ∷ []
unknown nodetype _ = text "Unsupported Node Type " ∷ number nodetype ∷ []

-- The switch of PrintNode.
abbrev pub print_body : Node → BTreeDisplayType → Stream → Outcome (Unit {0}) × Stream
print_body b dt =
    let inner = (do
      put_if (not (is_dot dt)) (text "Interior: " ∷ [])
      print_inner b.info.numkeys 0 b) in
    let leaf = (do
      put_if (not (is_dot dt || is_sorted dt)) (text "Leaf: " ∷ [])
      print_leaf b.info.numkeys 0 b dt) in
    if is_inner b.info.nodetype
    then (if is_sorted dt then put [] else inner)
    else (if b.info.nodetype == leaf_node then leaf else put (unknown b.info.nodetype dt))

unfoldable pub print_node : ℕ → Node → BTreeDisplayType → Stream → Outcome (Unit {0}) × Stream
print_node nodenum b dt = do
  put (heading nodenum dt)
  print_body b dt
  put_if (is_dot dt) (text "\" ]" ∷ [])

-- The cache that the nodes come from and the stream.
pub record Screen {ℓ} (D : Type ℓ) : Type ℓ where
  pub cache : Cache D
  pub os : Stream

module _ {ℓ} {D : Type ℓ} where
  abbrev pub from_cache :
      {A : Type 0} → (Cache D → Outcome A × Cache D) → Screen D → Outcome A × Screen D
  from_cache m s = let (o, c) = m s.cache in (o, record s { cache = c })

  abbrev pub on_stream :
      (Stream → Outcome (Unit {0}) × Stream) → Screen D → Outcome (Unit {0}) × Screen D
  on_stream m s = let (o, os) = m s.os in (o, record s { os = os })

  -- The loop over the pointers of an inner node: `n` are left; `follow` is the recursive call.
  unfoldable pub display_children :
      (ℕ → Screen D → Outcome (Unit {0}) × Screen D)
      → ℕ
      → ℕ
      → ℕ
      → Node
      → BTreeDisplayType
      → Screen D
      → Outcome (Unit {0}) × Screen D
  display_children follow zero offset node b dt = on_stream (put [])
  display_children follow (suc n) offset node b dt = do
    ptr ← lift (get_ptr b offset)
    on_stream (put_if (is_dot dt) (number node ∷ text " -> " ∷ number ptr ∷ text ";\n" ∷ []))
    follow ptr
    display_children follow n (suc offset) node b dt

  -- The switch of DisplayInternal.
  abbrev pub display_rest :
      (ℕ → Screen D → Outcome (Unit {0}) × Screen D)
      → ℕ
      → Node
      → BTreeDisplayType
      → Screen D
      → Outcome (Unit {0}) × Screen D
  display_rest follow node b dt =
      let children =
        if ltb 0 b.info.numkeys
        then display_children follow (suc b.info.numkeys) 0 node b dt
        else on_stream (put []) in
      let other = (do
        on_stream
            (put_if (not (is_dot dt)) (text "Unsupported Node Type " ∷ number b.info.nodetype ∷ []))
        lift (err insane)) in
      if is_inner b.info.nodetype
      then children
      else (if b.info.nodetype == leaf_node then on_stream (put []) else other)

module _ {ℓ} {D : Type ℓ} ⦃d : Double D⦄ where
  -- BTreeIndex::DisplayInternal, on fuel as the lookup
  unfoldable pub display_internal :
      ℕ → ℕ → BTreeDisplayType → Screen D → Outcome (Unit {0}) × Screen D
  display_internal zero node dt = lift crash
  display_internal (suc fuel) node dt = do
    b ← from_cache (unserialize node)
    on_stream (print_node node b dt)
    on_stream (put_if (is_dot dt) (text ";" ∷ []))
    on_stream (put_if (not (is_sorted dt)) (text "\n" ∷ []))
    display_rest (λ ptr. display_internal fuel ptr dt) node b dt

  abbrev pub unchecked : Outcome (Unit {0}) × Screen D → Outcome (Unit {0}) × Screen D
  unchecked (err e, s) = (ok tt, s)
  unchecked r = r

  -- BTreeIndex::Display, which drops the error code of DisplayInternal
  unfoldable pub display : ℕ → BTreeDisplayType → Index D → Stream → Outcome (Unit {0}) × Screen D
  display fuel dt x os =
      (do
        on_stream (put_if (is_dot dt) (text "digraph tree { \n" ∷ []))
        (λ s. unchecked (display_internal fuel x.superblock.info.rootnode dt s))
        on_stream (put_if (is_dot dt) (text "}\n" ∷ [])))
        (record { cache = x.cache; os = os })
