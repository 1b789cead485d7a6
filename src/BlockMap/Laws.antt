-- ===== src/BlockMap/Laws.antt =====
-- The map as a partial function of block numbers, its size, and the order that it keeps.
use eecs.Prelude.{
  ℕ, ◌+◌, ◌≤◌, ◌<◌, ◌≡◌, ◌≢◌, refl, none, some, List, [], ◌∷◌, length, ◌==◌, if◌then◌else◌, arith,
}
use eecs.BlockMap.{find, insert, assign, erase, Above, IsSorted}

module _ {ℓ} {B : Type ℓ} where
  pub find-insert :
      (k : ℕ) (b : B) (m : List (ℕ × B)) (j : ℕ)
      → find j (insert k b m) ≡ (if k == j then some b else find j m)
  unfolding find insert
  find-insert k b [] j = refl
  find-insert k b ((i, c) ∷ m) j = ground (arith, find-insert k b m j)

  pub find-assign :
      (k : ℕ) (b : B) (m : List (ℕ × B)) (j : ℕ) {old : B}
      → find k m ≡ some old
      → find j (assign k b m) ≡ (if k == j then some b else find j m)
  unfolding find assign
  find-assign k b [] j {old} h = ground arith
  find-assign k b ((i, c) ∷ m) j {old} h = ground (arith, find-assign k b m j {old = old})

  pub find_below : (k i : ℕ) (m : List (ℕ × B)) → Above i m → k ≤ i → find k m ≡ none
  unfolding find
  find_below k i [] a h = refl
  find_below k i ((j, c) ∷ m) a h = ground (arith, find_below k j m a.1)

  pub find-erase :
      (k : ℕ) (m : List (ℕ × B)) (j : ℕ)
      → IsSorted m
      → find j (erase k m) ≡ (if k == j then none else find j m)
  unfolding find erase
  find-erase k [] j s = ground arith
  find-erase k ((i, c) ∷ []) j s = ground arith
  find-erase k ((i, c) ∷ (i', c') ∷ m) j s =
      ground (arith, find-erase k ((i', c') ∷ m) j s.1, find_below j i ((i', c') ∷ m) s)

  Above-insert :
      (k : ℕ) (b : B) (i : ℕ) (m : List (ℕ × B)) → Above i m → i < k → Above i (insert k b m)
  unfolding insert
  Above-insert k b i [] a h = (h, tt)
  Above-insert k b i ((j, c) ∷ m) a h = ground (arith, Above-insert k b j m a.1)

  pub insert-IsSorted : (k : ℕ) (b : B) (m : List (ℕ × B)) → IsSorted m → IsSorted (insert k b m)
  unfolding insert
  insert-IsSorted k b [] s = tt
  insert-IsSorted k b ((i, c) ∷ m) s = ground (arith, Above-insert k b i m s)

  Above-assign : (k : ℕ) (b : B) (i : ℕ) (m : List (ℕ × B)) → Above i m → Above i (assign k b m)
  unfolding assign
  Above-assign k b i [] a = tt
  Above-assign k b i ((j, c) ∷ m) a = ground (arith, Above-assign k b j m a.1)

  pub assign-IsSorted : (k : ℕ) (b : B) (m : List (ℕ × B)) → IsSorted m → IsSorted (assign k b m)
  unfolding assign
  assign-IsSorted k b [] s = tt
  assign-IsSorted k b ((i, c) ∷ m) s = ground (arith, Above-assign k b i m s)

  Above-lower : (i j : ℕ) (m : List (ℕ × B)) → i < j → Above j m → Above i m
  Above-lower i j [] h a = tt
  Above-lower i j ((k, c) ∷ m) h a = (omega arith, a.1)

  Above-erase : (k i : ℕ) (m : List (ℕ × B)) → Above i m → Above i (erase k m)
  unfolding erase
  Above-erase k i [] a = tt
  Above-erase k i ((j, c) ∷ m) a = ground (arith, Above-erase k j m a.1, Above-lower i j m a.0 a.1)

  pub Above-IsSorted : (i : ℕ) (m : List (ℕ × B)) → Above i m → IsSorted m
  Above-IsSorted i [] a = tt
  Above-IsSorted i ((k, c) ∷ m) a = a.1

  pub erase-IsSorted : (k : ℕ) (m : List (ℕ × B)) → IsSorted m → IsSorted (erase k m)
  unfolding erase
  erase-IsSorted k [] s = tt
  erase-IsSorted k ((i, c) ∷ m) s = ground (arith, Above-erase k i m s, Above-IsSorted i m s)

  pub length-insert-le : (k : ℕ) (b : B) (m : List (ℕ × B)) → length (insert k b m) ≤ length m + 1
  unfolding insert
  length-insert-le k b [] = omega arith
  length-insert-le k b ((i, c) ∷ m) = ground (arith, length-insert-le k b m)

  pub length-assign : (k : ℕ) (b : B) (m : List (ℕ × B)) → length (assign k b m) ≡ length m
  unfolding assign
  length-assign k b [] = refl
  length-assign k b ((i, c) ∷ m) = ground (arith, length-assign k b m)

  pub length-erase :
      (k : ℕ) (m : List (ℕ × B)) {b : B} → find k m ≡ some b → length (erase k m) + 1 ≡ length m
  unfolding find erase
  length-erase k [] {b} h = ground arith
  length-erase k ((i, c) ∷ m) {b} h = ground (arith, length-erase k m {b = b})

  -- What is found in the tail of a sorted map is found in the map, under another number.
  pub tail_found :
      (k : ℕ) (b : B) (m : List (ℕ × B)) (j : ℕ) {b' : B}
      → Above k m
      → find j m ≡ some b'
      → (k ≢ j) × (find j ((k, b) ∷ m) ≡ some b')
  unfolding find
  tail_found k b m j a e = ground (arith, find_below j k m a)
