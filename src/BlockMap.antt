-- ===== src/BlockMap.antt =====
-- map<SIZE_T, Block, cache_compare_lessthan> of btree_lab/buffercache.h: the blocks of the cache,
-- in the order of their numbers. An iterator is the number that it points at.
pub mod Laws
use eecs.Prelude.{ℕ, ◌<◌, Option, none, some, List, [], ◌∷◌, ltb, ◌==◌, if◌then◌else◌}

module _ {ℓ} {B : Type ℓ} where
  -- blockmap.find(k), dereferenced
  unfoldable pub find : ℕ → List (ℕ × B) → Option B
  find k [] = none
  find k ((i, c) ∷ m) = if i == k then some c else find k m

  -- blockmap[k] = b
  unfoldable pub insert : ℕ → B → List (ℕ × B) → List (ℕ × B)
  insert k b [] = (k, b) ∷ []
  insert k b ((i, c) ∷ m) =
      if ltb k i then (k, b) ∷ (i, c) ∷ m else if i == k then (k, b) ∷ m else (i, c) ∷ insert k b m

  -- (*it).second = b
  unfoldable pub assign : ℕ → B → List (ℕ × B) → List (ℕ × B)
  assign k b [] = []
  assign k b ((i, c) ∷ m) = if i == k then (i, b) ∷ m else (i, c) ∷ assign k b m

  -- blockmap.erase(it)
  unfoldable pub erase : ℕ → List (ℕ × B) → List (ℕ × B)
  erase k [] = []
  erase k ((i, c) ∷ m) = if i == k then m else (i, c) ∷ erase k m

  -- The keys increase, and are above `k`.
  abbrev pub Above : ℕ → List (ℕ × B) → Type 0
  Above k [] = Unit
  Above k ((i, _) ∷ m) = (k < i) × Above i m

  abbrev pub IsSorted : List (ℕ × B) → Type 0
  IsSorted [] = Unit
  IsSorted ((k, _) ∷ m) = Above k m
