-- ===== src/Cache/Evict.antt =====
-- CheckDeleteOldest of btree_lab/buffercache.cc: which block leaves a full cache.
use eecs.Prelude.{
  ℕ, ◌+◌, ◌≤◌, ◌≡◌, refl, true, false, Bool-cases, Option-cases, Option, none, some, List, [], ◌∷◌,
  length, inl, inr, ◌⊎◌, ltb, if◌then◌else◌, arith,
}
use eecs.Error.{Error, no_error}
use eecs.Double.{Double}
use eecs.Block.{Block}
use eecs.Disk.Blocks.{SameShape}
use eecs.BlockMap.{find, erase, IsSorted}
use eecs.BlockMap.Laws.{Above-IsSorted, tail_found, find-erase, length-erase}
use eecs.Cache.{Cache, find_oldest, evict, check_delete_oldest}
use eecs.Cache.Coherent.{IsCoherent, view}
use eecs.Cache.WriteBack.{write_erase-WritesErases}
use eecs.Disk.Blocks.{SameShape-refl}

module _ {ℓ} {D : Type ℓ} ⦃d : Double D⦄ where
  -- The loop ends at its first iterator or at an entry of the map.
  find_oldest_found :
      (m : List (ℕ × Block D)) (oldest : D) (ptr : Option (ℕ × Block D)) (k : ℕ) (b : Block D)
      → IsSorted m
      → find_oldest oldest ptr m ≡ some (k, b)
      → (ptr ≡ some (k, b)) ⊎ (find k m ≡ some b)
  unfolding find_oldest find
  find_oldest_found [] oldest ptr k b s e = inl e
  find_oldest_found ((i, a) ∷ m) oldest ptr k b s e =
      let older = d.lt a.lastaccessed oldest in
      let rest =
        find_oldest_found m (if older then a.lastaccessed else oldest)
          (if older then some (i, a) else ptr) k b (Above-IsSorted i m s) e in
      ground (arith, rest, tail_found i a m k {b' = b} s)

  -- An eviction changes nothing that a client sees, and makes room by at most one block.
  pub record Evicts (c : Cache D) (r : Cache D × Error) : Type ℓ where
    pub rc : r.1 ≡ no_error
    pub coherent : IsCoherent r.0
    pub same : (j : ℕ) → view r.0 j ≡ view c j
    pub shape : SameShape c.disk r.0.disk
    pub capacity : r.0.cachesize ≡ c.cachesize
    pub absent : (j : ℕ) → find j c.blockmap ≡ none → find j r.0.blockmap ≡ none

  evict-Evicts :
      {c : Cache D} (ptr : Option (ℕ × Block D))
      → IsCoherent c
      → ((k : ℕ) (b : Block D) → ptr ≡ some (k, b) → find k c.blockmap ≡ some b)
      → Evicts c (evict c ptr)
  unfolding evict
  evict-Evicts {c} none h found = record {
    rc = refl;
    coherent = h;
    same = λ j. refl;
    shape = SameShape-refl c.disk;
    capacity = refl;
    absent = λ j e. e;
  }
  evict-Evicts {c} (some (k, b)) h found =
      let w = write_erase-WritesErases k b h (found k b refl) in
      record {
        rc = w.rc;
        coherent = w.coherent;
        same = w.same;
        shape = w.shape;
        capacity = w.capacity;
        absent = λ j e. rw w.map (ground (arith, find-erase k c.blockmap j h.sorted));
      }

  -- CheckDeleteOldest of a coherent cache succeeds, keeps the cache coherent and every block in
  -- view as it was, and caches no new block.
  pub check_delete_oldest-Evicts : {c : Cache D} → IsCoherent c → Evicts c (check_delete_oldest c)
  unfolding check_delete_oldest evict
  check_delete_oldest-Evicts {c} h = elim (Bool-cases (ltb (length c.blockmap) c.cachesize)) [
    | inl room ↦ rw room (evict-Evicts none h (λ k b e. cc))
    | inr full ↦ rw full (
        evict-Evicts _ h
          (λ k b e. ground (arith, find_oldest_found c.blockmap _ none k b h.sorted e)))
  ]

-- The order that `<` on times has to be: a documented property of `double`, NaN included.
pub record IsStrict {ℓ} (D : Type ℓ) ⦃d : Double D⦄ : Type ℓ where
  pub irreflexive : (x : D) → d.lt x x ≡ false
  pub transitive : (x y z : D) → d.lt x y ≡ true → d.lt y z ≡ true → d.lt x z ≡ true

module _ {ℓ} {D : Type ℓ} ⦃d : Double D⦄ where
  -- No block of `m` was accessed before `t`.
  abbrev pub NoneOlder : D → List (ℕ × Block D) → Type 0
  NoneOlder t [] = Unit
  NoneOlder t ((_, a) ∷ m) = (d.lt a.lastaccessed t ≡ false) × NoneOlder t m

  find_oldest-none :
      (m : List (ℕ × Block D)) (oldest : D) (ptr : Option (ℕ × Block D))
      → find_oldest oldest ptr m ≡ none
      → (ptr ≡ none) × NoneOlder oldest m
  unfolding find_oldest
  find_oldest-none [] oldest ptr e = (e, tt)
  find_oldest-none ((i, a) ∷ m) oldest ptr e =
      let older = d.lt a.lastaccessed oldest in
      ground (
        arith,
        find_oldest-none m (if older then a.lastaccessed else oldest)
            (if older then some (i, a) else ptr) e,
      )

  module _ (strict : IsStrict D) where
    no_newer : (a b : D) → (b ≡ a) ⊎ (d.lt b a ≡ true) → d.lt a b ≡ false
    no_newer a b h = ground (arith, strict.irreflexive a, strict.transitive a b a, h)

    -- The block that the loop ends at is the oldest of all that it has passed.
    find_oldest-some :
        (m : List (ℕ × Block D)) (oldest : D) (ptr : Option (ℕ × Block D)) (k : ℕ) (b : Block D)
        → (ptr ≡ some (k, b) → b.lastaccessed ≡ oldest)
        → find_oldest oldest ptr m ≡ some (k, b)
        → ((b.lastaccessed ≡ oldest) ⊎ (d.lt b.lastaccessed oldest ≡ true))
          × NoneOlder b.lastaccessed m
    unfolding find_oldest
    find_oldest-some [] oldest ptr k b at e = (inl (at e), tt)
    find_oldest-some ((i, a) ∷ m) oldest ptr k b at e =
        elim (Bool-cases (d.lt a.lastaccessed oldest)) [
          | inl older ↦
              let rest =
                find_oldest-some m a.lastaccessed (some (i, a)) k b (λ p. ground arith)
                  (ground (arith, e)) in
              ground (
                arith,
                rest,
                no_newer a.lastaccessed b.lastaccessed rest.0,
                strict.transitive b.lastaccessed a.lastaccessed oldest,
              )
          | inr newer ↦
              let rest = find_oldest-some m oldest ptr k b at (ground (arith, e)) in
              ground (arith, rest, strict.transitive a.lastaccessed b.lastaccessed oldest)
        ]

    -- If `<` on times is a strict order, CheckDeleteOldest of a full coherent cache removes one
    -- block, and no cached block was accessed before that one; only if every block was accessed at
    -- the time `curtime + 1` or later it removes none.
    pub check_delete_oldest-oldest :
        {c : Cache D}
        → IsCoherent c
        → c.cachesize ≤ length c.blockmap
        → (((check_delete_oldest c).0.blockmap ≡ c.blockmap)
            × NoneOlder (d.add c.curtime (d.of_size 1)) c.blockmap)
          ⊎ ((k : ℕ) × (b : Block D) × (find k c.blockmap ≡ some b)
              × NoneOlder b.lastaccessed c.blockmap
              × ((check_delete_oldest c).0.blockmap ≡ erase k c.blockmap)
              × (length (check_delete_oldest c).0.blockmap + 1 ≡ length c.blockmap))
    unfolding check_delete_oldest evict
    check_delete_oldest-oldest {c} h full =
        let now = d.add c.curtime (d.of_size 1) in
        let guard : ltb (length c.blockmap) c.cachesize ≡ false = ground arith in
        elim (Option-cases (find_oldest now none c.blockmap)) [
          | inl e ↦ rw (guard, e) (inl (refl, (find_oldest-none c.blockmap now none e).1))
          | inr ((k, b), e) ↦
              let found : find k c.blockmap ≡ some b =
                ground (arith, find_oldest_found c.blockmap now none k b h.sorted e) in
              let least = find_oldest-some c.blockmap now none k b (λ p. ground arith) e in
              let w = write_erase-WritesErases k b h found in
              rw (guard, e)
                (inr (k, b, found, least.1, w.map, rw w.map (length-erase k c.blockmap found)))
        ]
