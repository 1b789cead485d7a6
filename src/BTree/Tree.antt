-- ===== src/BTree/Tree.antt =====
-- The trees that the blocks of an index of btree_lab/btree.cc stand for: what a lookup by the
-- separating keys finds, against the list of all pairs.
use Prim.Native.Nat.{Ordering}
use eecs.Prelude.{
  ℕ, ◌≡◌, refl, sym, ap, Bool, true, false, Option, none, some, inl, inr, Bool-cases, List, [], ◌∷◌,
  ◌++◌, length, if◌then◌else◌, arith,
}
use eecs.Block.{compare_bytes}
use eecs.Block.Order.{compare_bytes-eq, compare_bytes_flip}

abbrev pub Pair : Type 0
Pair = List ℕ × List ℕ

mutual
  pub data Tree : Type 0 where
    leaf : List Pair → Tree
    -- a node with no keys, and so with nowhere to go
    bare : Tree
    inner : Tree → List ℕ → Forest → Tree

  -- The subtrees of a node and the keys between them.
  pub data Forest : Type 0 where
    last : Tree → Forest
    branch : Tree → List ℕ → Forest → Forest

abbrev pub same_key : Ordering → Bool
same_key Ordering.eq = true
same_key _ = false

abbrev pub at_most : Ordering → Bool
at_most Ordering.gt = false
at_most _ = true

-- The value of the first pair with the key `key`, comparing `n` bytes.
unfoldable pub first_match : ℕ → List ℕ → List Pair → Option (List ℕ)
first_match n key [] = none
first_match n key ((k, v) ∷ pairs) =
    if same_key (compare_bytes n k key) then some v else first_match n key pairs

-- The lookup by the separating keys: a key goes left of the first one that is at least as large.
unfoldable mutual
  pub lookup_tree : ℕ → List ℕ → Tree → Option (List ℕ)
  lookup_tree n key (leaf pairs) = first_match n key pairs
  lookup_tree n key bare = none
  lookup_tree n key (inner t k f) =
      if at_most (compare_bytes n key k) then lookup_tree n key t else lookup_forest n key f

  pub lookup_forest : ℕ → List ℕ → Forest → Option (List ℕ)
  lookup_forest n key (last t) = lookup_tree n key t
  lookup_forest n key (branch t k f) =
      if at_most (compare_bytes n key k) then lookup_tree n key t else lookup_forest n key f

unfoldable mutual
  pub entries : Tree → List Pair
  entries (leaf pairs) = pairs
  entries bare = []
  entries (inner t k f) = entries t ++ entries_forest f

  pub entries_forest : Forest → List Pair
  entries_forest (last t) = entries t
  entries_forest (branch t k f) = entries t ++ entries_forest f

-- Every key has `n` bytes and is in the relation `r` to `k`.
abbrev pub AllKeys : ℕ → (List ℕ → Type 0) → List Pair → Type 0
AllKeys n P [] = Unit
AllKeys n P (pair ∷ pairs) = (length pair.0 ≡ n) × P pair.0 × AllKeys n P pairs

-- The keys left of a separating key are at most it, those right of it larger.
abbrev pub Separates : ℕ → List ℕ → List Pair → List Pair → Type 0
Separates n k left right =
    (length k ≡ n)
    × AllKeys n (λ x. at_most (compare_bytes n x k) ≡ true) left
    × AllKeys n (λ x. compare_bytes n k x ≡ Ordering.lt) right

-- Nothing is asked of the order inside a leaf.
unfoldable mutual
  pub IsSearchTree : ℕ → Tree → Type 0
  IsSearchTree n (leaf pairs) = AllKeys n (λ x. Unit) pairs
  IsSearchTree n bare = Unit
  IsSearchTree n (inner t k f) =
      IsSearchTree n t × IsSearchForest n f × Separates n k (entries t) (entries_forest f)

  pub IsSearchForest : ℕ → Forest → Type 0
  IsSearchForest n (last t) = IsSearchTree n t
  IsSearchForest n (branch t k f) =
      IsSearchTree n t × IsSearchForest n f × Separates n k (entries t) (entries_forest f)

-- A key left of a separating key is at most it, and so differs from all keys right of it.
not_right :
    (n : ℕ) (key k x : List ℕ)
    → length key ≡ n
    → length x ≡ n
    → at_most (compare_bytes n key k) ≡ true
    → compare_bytes n k x ≡ Ordering.lt
    → same_key (compare_bytes n x key) ≡ false
not_right n key k x p q le lt =
    ground
      (arith, compare_bytes-eq n x key q p, compare_bytes_flip n k x, compare_bytes_flip n k key)

not_left :
    (n : ℕ) (key k x : List ℕ)
    → length key ≡ n
    → length x ≡ n
    → at_most (compare_bytes n key k) ≡ false
    → at_most (compare_bytes n x k) ≡ true
    → same_key (compare_bytes n x key) ≡ false
not_left n key k x p q gt le = ground (arith, compare_bytes-eq n x key q p)

no_match_empty : (n : ℕ) (key : List ℕ) → none ≡ first_match n key []
unfolding first_match
no_match_empty n key = refl

no_match_right :
    (n : ℕ) (key k : List ℕ) (pairs : List Pair)
    → length key ≡ n
    → at_most (compare_bytes n key k) ≡ true
    → AllKeys n (λ x. compare_bytes n k x ≡ Ordering.lt) pairs
    → first_match n key pairs ≡ none
unfolding first_match
no_match_right n key k [] p le h = refl
no_match_right n key k ((x, v) ∷ pairs) p le h =
    rw (not_right n key k x p h.0 le h.1) (no_match_right n key k pairs p le h.2)

no_match_left :
    (n : ℕ) (key k : List ℕ) (pairs : List Pair)
    → length key ≡ n
    → at_most (compare_bytes n key k) ≡ false
    → AllKeys n (λ x. at_most (compare_bytes n x k) ≡ true) pairs
    → first_match n key pairs ≡ none
unfolding first_match
no_match_left n key k [] p gt h = refl
no_match_left n key k ((x, v) ∷ pairs) p gt h =
    rw (not_left n key k x p h.0 gt h.1) (no_match_left n key k pairs p gt h.2)

first_match-left :
    (n : ℕ) (key : List ℕ) (pairs others : List Pair)
    → first_match n key others ≡ none
    → first_match n key (pairs ++ others) ≡ first_match n key pairs
unfolding first_match
first_match-left n key [] others h = h
first_match-left n key ((x, v) ∷ pairs) others h =
    ap (λ r. if same_key (compare_bytes n x key) then some v else r)
      (first_match-left n key pairs others h)

first_match-right :
    (n : ℕ) (key : List ℕ) (pairs others : List Pair)
    → first_match n key pairs ≡ none
    → first_match n key (pairs ++ others) ≡ first_match n key others
unfolding first_match
first_match-right n key [] others h = refl
first_match-right n key ((x, v) ∷ pairs) others h =
    ground (arith, first_match-right n key pairs others)

-- The two ways from a separating key.
first_match-separated :
    (n : ℕ) (key k : List ℕ) (left right : List Pair)
    → length key ≡ n
    → Separates n k left right
    → first_match n key (left ++ right) ≡ (
        if at_most (compare_bytes n key k) then first_match n key left else first_match n key right)
first_match-separated n key k left right p (size, below, above) =
    elim (Bool-cases (at_most (compare_bytes n key k))) [
      | inl le ↦ rw le (first_match-left n key left right (no_match_right n key k right p le above))
      | inr gt ↦ rw gt (first_match-right n key left right (no_match_left n key k left p gt below))
    ]

mutual
  unfolding lookup_tree lookup_forest entries entries_forest IsSearchTree IsSearchForest

  lookup_tree_lem :
      (n : ℕ) (key : List ℕ) (t : Tree)
      → length key ≡ n
      → IsSearchTree n t
      → lookup_tree n key t ≡ first_match n key (entries t)
  lookup_tree_lem n key (leaf pairs) p h = refl
  lookup_tree_lem n key bare p h = no_match_empty n key
  lookup_tree_lem n key (inner t k f) p (left, right, apart) =
      rw (lookup_tree_lem n key t p left, lookup_forest_lem n key f p right)
        (sym (first_match-separated n key k (entries t) (entries_forest f) p apart))

  lookup_forest_lem :
      (n : ℕ) (key : List ℕ) (f : Forest)
      → length key ≡ n
      → IsSearchForest n f
      → lookup_forest n key f ≡ first_match n key (entries_forest f)
  lookup_forest_lem n key (last t) p h = lookup_tree_lem n key t p h
  lookup_forest_lem n key (branch t k f) p (left, right, apart) =
      rw (lookup_tree_lem n key t p left, lookup_forest_lem n key f p right)
        (sym (first_match-separated n key k (entries t) (entries_forest f) p apart))

-- In a tree whose keys are separated, the lookup by the separating keys finds what a scan of all
-- pairs finds.
pub lookup_tree-entries :
    (n : ℕ) (key : List ℕ) (t : Tree)
    → length key ≡ n
    → IsSearchTree n t
    → lookup_tree n key t ≡ first_match n key (entries t)
lookup_tree-entries = lookup_tree_lem
